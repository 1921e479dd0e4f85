-- ===== src/Recorder/Tracks.antt =====
-- The loops of `buffer_write` in src/main-record.c: what they add to the buffer in memory.
use mathlib.Core.Path.{subst}
use native.Mathlib.Nat.{add-zero}
use overwitch.Prelude.{
  ℕ, zero, suc, ◌+◌, ◌*◌, ◌/◌, ◌≤◌, ◌<◌, ◌≡◌, refl, sym, ap, ◌∙◌, Bool, true, false, if◌then◌else◌,
  Bool-cases, some, inl, inr, Runs, Runs-bind, List, [], ◌∷◌, ◌++◌, append-nil, append_assoc,
  length, length-append, length-drop, get_elem?, take, drop, set_elem, set_elem-IsPushed, arith,
}
use overwitch.Recorder.State.{
  Mask, is_recorded, Comparisons, Taken, bytes_per_sample, raise, lower, take_peak, take_sample,
  take_tracks, take_frames,
}

module _ {Float : Type 0} where
  -- The samples of a frame that are recorded, for its last `k` tracks from `j` on.
  unfoldable pub kept : Mask → ℕ → ℕ → List Float → List Float
  kept mask zero j buf = []
  kept mask (suc k) j [] = []
  kept mask (suc k) j (x ∷ buf) =
      (if is_recorded mask j then x ∷ [] else []) ++ kept mask k (j + 1) buf

  -- The samples of `n` frames of `tracks` samples that are recorded.
  unfoldable pub kept_frames : Mask → ℕ → ℕ → List Float → List Float
  kept_frames mask tracks zero buf = []
  kept_frames mask tracks (suc n) buf =
      kept mask tracks 0 buf ++ kept_frames mask tracks n (drop tracks buf)

-- How many of the last `k` tracks, from `j` on, are recorded.
unfoldable pub channels : Mask → ℕ → ℕ → ℕ
channels mask zero j = 0
channels mask (suc k) j = (if is_recorded mask j then 1 else 0) + channels mask k (j + 1)

module _ {Float : Type 0} where
  length-if : (b : Bool) (x : Float) → length (if b then x ∷ [] else []) ≡ (if b then 1 else 0)
  length-if true x = refl
  length-if false x = refl

  length-kept :
      (mask : Mask) (k j : ℕ) (buf : List Float)
      → k ≤ length buf
      → length (kept mask k j buf) ≡ channels mask k j
  unfolding kept channels
  length-kept mask zero j buf h = refl
  length-kept mask (suc k) j [] h = absurd (omega arith)
  length-kept mask (suc k) j (x ∷ buf) h = omega (
    arith,
    length-append (if is_recorded mask j then x ∷ [] else []) (kept mask k (j + 1) buf),
    length-if (is_recorded mask j) x,
    length-kept mask k (j + 1) buf (omega arith),
  )

  pub length-kept_frames :
      (mask : Mask) (tracks n : ℕ) (buf : List Float)
      → n * tracks ≤ length buf
      → length (kept_frames mask tracks n buf) ≡ n * channels mask tracks 0
  unfolding kept_frames
  length-kept_frames mask tracks zero buf h = omega arith
  length-kept_frames mask tracks (suc n) buf h =
      let all : tracks + n * tracks ≤ length buf = grind arith in
      let rest : n * tracks ≤ length (drop tracks buf) =
        omega (arith, length-drop tracks buf, all) in
      let this = length-kept mask tracks 0 buf (omega (arith, all)) in
      let others = length-kept_frames mask tracks n (drop tracks buf) rest in
      length-append (kept mask tracks 0 buf) _ ∙ grind (arith, this, others)

module _ {Float : Type 0} (O : Comparisons Float) where
  -- What taking the samples `xs` behind the first `p` does.
  pub record HasTaken (p : ℕ) (s : Taken O) (xs : List Float) (s' : Taken O) : Type 0 where
    pub pos : s'.pos ≡ (p + length xs) * bytes_per_sample
    pub mem_length : length s'.mem ≡ length s.mem
    pub held : take (p + length xs) s'.mem ≡ take p s.mem ++ xs
    pub maxs_length : length s'.maxs ≡ length s.maxs
    pub mins_length : length s'.mins ≡ length s.mins

  none-HasTaken : (p : ℕ) (s : Taken O) → s.pos ≡ p * bytes_per_sample → HasTaken p s [] s
  none-HasTaken p s h = record {
    pos = omega (arith, h);
    mem_length = refl;
    held = rw add-zero (sym (append-nil _));
    maxs_length = refl;
    mins_length = refl;
  }

  append-HasTaken :
      (p : ℕ) (s t u : Taken O) (xs ys : List Float)
      → HasTaken p s xs t
      → HasTaken (p + length xs) t ys u
      → HasTaken p s (xs ++ ys) u
  append-HasTaken p s t u xs ys h k =
      let size : p + length (xs ++ ys) ≡ p + length xs + length ys =
        omega (arith, length-append xs ys) in
      record {
        pos = k.pos ∙ ap (λ n. n * bytes_per_sample) (sym size);
        mem_length = k.mem_length ∙ h.mem_length;
        held =
            ap (λ n. take n u.mem) size
            ∙ k.held
            ∙ ap (λ r. r ++ ys) h.held
            ∙ append_assoc (take p s.mem) xs ys;
        maxs_length = k.maxs_length ∙ h.maxs_length;
        mins_length = k.mins_length ∙ h.mins_length;
      }

  get_elem?-total :
      (xs : List Float) (i : ℕ) → i < length xs → Runs (get_elem? xs i) (λ x. Unit {0})
  get_elem?-total [] i h = absurd (omega arith)
  get_elem?-total (x ∷ xs) zero h = (x, refl, tt)
  get_elem?-total (x ∷ xs) (suc i) h = get_elem?-total xs i (omega arith)

  set-length :
      (b : Bool) (xs : List Float) (i : ℕ) (x : Float)
      → i < length xs
      → Runs (if b then set_elem xs i x else some xs) (λ ys. length ys ≡ length xs)
  set-length true xs i x h = let (ys, e, s) = set_elem-IsPushed xs i x h in (ys, e, s.same_length)
  set-length false xs i x h = (xs, refl, refl)

  pub raise-length :
      (xs : List Float) (i : ℕ) (x : Float)
      → i < length xs
      → Runs (raise O xs i x) (λ ys. length ys ≡ length xs)
  unfolding raise
  raise-length xs i x h =
      Runs-bind _ (get_elem? xs i) _ _ (get_elem?-total xs i h) (λ m _. set-length _ xs i x h)

  pub lower-length :
      (xs : List Float) (i : ℕ) (x : Float)
      → i < length xs
      → Runs (lower O xs i x) (λ ys. length ys ≡ length xs)
  unfolding lower
  lower-length xs i x h =
      Runs-bind _ (get_elem? xs i) _ _ (get_elem?-total xs i h) (λ m _. set-length _ xs i x h)

  take_peak-lengths :
      (j : ℕ) (x : Float) (s : Taken O)
      → j < length s.maxs
      → j < length s.mins
      → Runs (take_peak O j x s) (λ t.
        (t.mem ≡ s.mem)
        × (t.pos ≡ s.pos)
        × ((length t.maxs ≡ length s.maxs) × (length t.mins ≡ length s.mins)))
  unfolding take_peak
  take_peak-lengths j x s h k = elim (Bool-cases (O.is_positive x)) [
    | inl up ↦ rw up (
        Runs-bind _ (raise O s.maxs j x) _ _ (raise-length s.maxs j x h)
          (λ m e. (record s { maxs = m }, refl, (refl, refl, (e, refl)))))
    | inr down ↦ rw down (
        Runs-bind _ (lower O s.mins j x) _ _ (lower-length s.mins j x k)
          (λ m e. (record s { mins = m }, refl, (refl, refl, (refl, e)))))
  ]

  take_sample-HasTaken :
      (p j : ℕ) (x : Float) (s : Taken O)
      → s.pos ≡ p * bytes_per_sample
      → p < length s.mem
      → j < length s.maxs
      → j < length s.mins
      → Runs (take_sample O j x s) (HasTaken p s (x ∷ []))
  unfolding take_sample
  take_sample-HasTaken p j x s e room h k =
      let at : s.pos / bytes_per_sample ≡ p = omega (arith, e) in
      let size : p + 1 ≡ suc p = omega arith in
      rw at (
        Runs-bind _ (set_elem s.mem p x) _ _ (set_elem-IsPushed s.mem p x room) (λ mem w.
          let s' : Taken O = record s { mem = mem; pos = s.pos + bytes_per_sample } in
          let (t, r, (same_mem, same_pos, (up, down))) = take_peak-lengths j x s' h k in
          (
            t,
            r,
            record {
              pos = same_pos ∙ omega (arith, e);
              mem_length = ap length same_mem ∙ w.same_length;
              held = ap (λ m. take (p + 1) m) same_mem ∙ ap (λ n. take n mem) size ∙ w.pushed;
              maxs_length = up;
              mins_length = down;
            },
          )))

  -- One track, whether it is recorded or not.
  step-HasTaken :
      (b : Bool) (p j : ℕ) (x : Float) (s : Taken O)
      → s.pos ≡ p * bytes_per_sample
      → p + (if b then 1 else 0) ≤ length s.mem
      → j < length s.maxs
      → j < length s.mins
      → Runs (if b then take_sample O j x s else some s) (HasTaken p s (if b then x ∷ [] else []))
  step-HasTaken true p j x s e room h k = take_sample-HasTaken p j x s e (omega (arith, room)) h k
  step-HasTaken false p j x s e room h k = (s, refl, none-HasTaken p s e)

  take_tracks-HasTaken :
      (mask : Mask) (k p j : ℕ) (buf : List Float) (s : Taken O)
      → s.pos ≡ p * bytes_per_sample
      → k ≤ length buf
      → p + channels mask k j ≤ length s.mem
      → j + k ≤ length s.maxs
      → j + k ≤ length s.mins
      → Runs
          (take_tracks O mask k j buf s)
          (λ r. (r.0 ≡ drop k buf) × HasTaken p s (kept mask k j buf) r.1)
  unfolding take_tracks kept channels
  take_tracks-HasTaken mask zero p j buf s e h room a b =
      ((buf, s), refl, (refl, none-HasTaken p s e))
  take_tracks-HasTaken mask (suc k) p j [] s e h room a b = absurd (omega arith)
  take_tracks-HasTaken mask (suc k) p j (x ∷ buf) s e h room a b =
      let this : List Float = if is_recorded mask j then x ∷ [] else [] in
      Runs-bind _ (if is_recorded mask j then take_sample O j x s else some s) _ (HasTaken p s this)
        (step-HasTaken (is_recorded mask j) p j x s e (omega (arith, room)) (omega arith)
          (omega arith))
        (λ t w.
          let size = length-if (is_recorded mask j) x in
          let (r, q, (left, more)) =
            take_tracks-HasTaken mask k (p + length this) (j + 1) buf t w.pos (omega arith)
              (omega (arith, size, room, w.mem_length)) (omega (arith, w.maxs_length))
              (omega (arith, w.mins_length)) in
          (r, q, (left, append-HasTaken p s t r.1 this (kept mask k (j + 1) buf) w more)))

  -- The samples of `n` frames go behind the first `p`, if there is room for them.
  pub take_frames-HasTaken :
      (mask : Mask) (tracks n p : ℕ) (buf : List Float) (s : Taken O)
      → s.pos ≡ p * bytes_per_sample
      → n * tracks ≤ length buf
      → p + n * channels mask tracks 0 ≤ length s.mem
      → tracks ≤ length s.maxs
      → tracks ≤ length s.mins
      → Runs (take_frames O mask tracks n buf s) (HasTaken p s (kept_frames mask tracks n buf))
  unfolding take_frames kept_frames
  take_frames-HasTaken mask tracks zero p buf s e h room a b = (s, refl, none-HasTaken p s e)
  take_frames-HasTaken mask tracks (suc n) p buf s e h room a b =
      let c = channels mask tracks 0 in
      let all : tracks + n * tracks ≤ length buf = grind arith in
      let fits : p + c + n * c ≤ length s.mem = grind arith in
      let first = length-kept mask tracks 0 buf (omega (arith, all)) in
      Runs-bind _ (take_tracks O mask tracks 0 buf s) _ _
        (take_tracks-HasTaken mask tracks p 0 buf s e (omega (arith, all)) (omega (arith, fits))
          (omega (arith, a)) (omega (arith, b)))
        (λ r w.
          let left : n * tracks ≤ length r.0 =
            omega (arith, ap length w.0, length-drop tracks buf, all) in
          let (t, q, more) =
            take_frames-HasTaken mask tracks n (p + length (kept mask tracks 0 buf)) r.0 r.1 w.1.pos
              left (omega (arith, first, fits, w.1.mem_length)) (omega (arith, a, w.1.maxs_length))
              (omega (arith, b, w.1.mins_length)) in
          (
            t,
            q,
            append-HasTaken p s r.1 t (kept mask tracks 0 buf)
                (kept_frames mask tracks n (drop tracks buf)) w.1
                (subst
                  (λ d.
                    HasTaken (p + length (kept mask tracks 0 buf)) r.1 (kept_frames mask tracks n d)
                      t)
                  w.0 more),
          ))
