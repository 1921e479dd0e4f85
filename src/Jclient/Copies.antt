-- ===== src/Jclient/Copies.antt =====
-- `jclient_copy_o2j_audio` and `jclient_copy_j2o_audio` of src/jclient.c: the samples of frames in a
-- row, and one buffer for each port. `none` is an access out of bounds.
use mathlib.Core.Path.{subst}
use native.Mathlib.Nat.{zero-mul, suc-mul}
use overwitch.Prelude.{
  ℕ, zero, suc, ◌+◌, ◌*◌, ◌<◌, ◌≡◌, ◌≢◌, refl, sym, ◌∙◌, ap, take-drop, nil_of_length, length-take,
  length-append, length-drop, Option, none, some, ◌>>=◌, Runs, Runs-some, Runs-weaken, Runs-bind,
  All, List, [], ◌∷◌, ◌++◌, length, get_elem?, take, drop, set_elem, arith,
}

module _ {A : Type 0} where
  -- The loop over the ports in frame `i`: the buffers and the samples left.
  unfoldable pub copy_o2j_frame : ℕ → List (List A) → List A → Option (List (List A) × List A)
  copy_o2j_frame i [] f = some ([], f)
  copy_o2j_frame i (b ∷ bs) [] = none
  copy_o2j_frame i (b ∷ bs) (a ∷ f) = do
    b' ← set_elem b i a
    (bs', f') ← copy_o2j_frame i bs f
    some (b' ∷ bs', f')

  -- `jclient_copy_o2j_audio`, for the `n` frames from `i` on.
  unfoldable pub copy_o2j_audio : ℕ → ℕ → List (List A) → List A → Option (List (List A))
  unfolding copy_o2j_frame
  copy_o2j_audio zero i bs f = some bs
  copy_o2j_audio (suc n) i bs f = do
    (bs', f') ← copy_o2j_frame i bs f
    copy_o2j_audio n (i + 1) bs' f'

  -- The loop over the ports in frame `i`: the samples that are stored.
  unfoldable pub copy_j2o_frame : ℕ → List (List A) → Option (List A)
  copy_j2o_frame i [] = some []
  copy_j2o_frame i (b ∷ bs) = do a ← get_elem? b i; f ← copy_j2o_frame i bs; some (a ∷ f)

  -- `jclient_copy_j2o_audio`, for the `n` frames from `i` on.
  unfoldable pub copy_j2o_audio : ℕ → ℕ → List (List A) → Option (List A)
  unfolding copy_j2o_frame
  copy_j2o_audio zero i bs = some []
  copy_j2o_audio (suc n) i bs = do
    f ← copy_j2o_frame i bs
    f' ← copy_j2o_audio n (i + 1) bs
    some (f ++ f')

  -- What a write to an element leaves.
  record IsStored (xs : List A) (i : ℕ) (a : A) (ys : List A) : Type 0 where
    pub same_length : length ys ≡ length xs
    pub at : get_elem? ys i ≡ some a
    pub elsewhere : (k : ℕ) → k ≢ i → get_elem? ys k ≡ get_elem? xs k

  head_elsewhere :
      (x a : A) (xs : List A) (k : ℕ) → k ≢ 0 → get_elem? (a ∷ xs) k ≡ get_elem? (x ∷ xs) k
  head_elsewhere x a xs zero h = absurd (h refl)
  head_elsewhere x a xs (suc k) h = refl

  tail_elsewhere :
      (x : A) (xs ys : List A) (i k : ℕ)
      → ((j : ℕ) → j ≢ i → get_elem? ys j ≡ get_elem? xs j)
      → k ≢ suc i
      → get_elem? (x ∷ ys) k ≡ get_elem? (x ∷ xs) k
  tail_elsewhere x xs ys i zero f h = refl
  tail_elsewhere x xs ys i (suc k) f h = f k (λ e. h (ap suc e))

  set_elem-IsStored :
      (xs : List A) (i : ℕ) (a : A) → i < length xs → Runs (set_elem xs i a) (IsStored xs i a)
  unfolding set_elem
  set_elem-IsStored [] i a h = absurd (omega arith)
  set_elem-IsStored (x ∷ xs) zero a h =
      Runs-some _ _ (record { same_length = refl; at = refl; elsewhere = head_elsewhere x a xs })
  set_elem-IsStored (x ∷ xs) (suc i) a h =
      Runs-bind _ (set_elem xs i a) _ _ (set_elem-IsStored xs i a (omega arith)) (λ ys s.
        Runs-some _ _ (record {
          same_length = omega (arith, s.same_length);
          at = s.at;
          elsewhere = (λ k. tail_elsewhere x xs ys i k s.elsewhere);
        }))

  -- All buffers have room for `n` frames.
  abbrev pub HasFrames : ℕ → List (List A) → Type 0
  HasFrames n = All (λ b. length b ≡ n)

  -- What a frame leaves: it is in the buffers, and the others stay.
  record IsCopied (n i : ℕ) (bs : List (List A)) (xs f : List A) (p : List (List A) × List A)
      : Type 0 where
    pub same_ports : length p.0 ≡ length bs
    pub frames : HasFrames n p.0
    pub rest : p.1 ≡ f
    pub at : copy_j2o_frame i p.0 ≡ some xs
    pub elsewhere : (k : ℕ) → k ≢ i → copy_j2o_frame k p.0 ≡ copy_j2o_frame k bs

  copy_o2j_frame-IsCopied :
      (n i : ℕ) (bs : List (List A)) (xs f : List A)
      → i < n
      → HasFrames n bs
      → length xs ≡ length bs
      → Runs (copy_o2j_frame i bs (xs ++ f)) (IsCopied n i bs xs f)
  unfolding copy_o2j_frame copy_j2o_frame
  copy_o2j_frame-IsCopied n i [] [] f h v e =
      Runs-some _ _
        (record { same_ports = refl; frames = tt; rest = refl; at = refl; elsewhere = λ k _. refl })
  copy_o2j_frame-IsCopied n i [] (x ∷ xs) f h v e = absurd (omega arith)
  copy_o2j_frame-IsCopied n i (b ∷ bs) [] f h v e = absurd (omega arith)
  copy_o2j_frame-IsCopied n i (b ∷ bs) (x ∷ xs) f h v e =
      Runs-bind _ (set_elem b i x) _ _ (set_elem-IsStored b i x (omega (arith, v.0))) (λ b' s.
        Runs-bind _ (copy_o2j_frame i bs (xs ++ f)) _ _
          (copy_o2j_frame-IsCopied n i bs xs f h v.1 (omega arith))
          (λ p c. Runs-some _ _ (record {
            same_ports = omega (arith, c.same_ports);
            frames = (omega (arith, s.same_length, v.0), c.frames);
            rest = c.rest;
            at = rw (s.at, c.at) refl;
            elsewhere = λ k d. rw (s.elsewhere k d, c.elsewhere k d) refl;
          })))

  -- The frames before `i` are left alone, and those from `i` on are the samples.
  record IsCopiedAll (n m i : ℕ) (bs : List (List A)) (f : List A) (bs' : List (List A))
      : Type 0 where
    pub frames : HasFrames n bs'
    pub back : copy_j2o_audio m i bs' ≡ some f
    pub before : (k : ℕ) → k < i → copy_j2o_frame k bs' ≡ copy_j2o_frame k bs

  copy_o2j_audio-IsCopiedAll :
      (n m i : ℕ) (bs : List (List A)) (f : List A)
      → i + m ≡ n
      → HasFrames n bs
      → length f ≡ m * length bs
      → Runs (copy_o2j_audio m i bs f) (IsCopiedAll n m i bs f)
  unfolding copy_o2j_audio copy_j2o_audio
  copy_o2j_audio-IsCopiedAll n zero i bs f h v e =
      let none_left : [] ≡ f = sym (nil_of_length f (omega (arith, e, zero-mul (length bs)))) in
      Runs-some _ _ (record { frames = v; back = ap some none_left; before = λ k _. refl })
  copy_o2j_audio-IsCopiedAll n (suc m) i bs f h v e =
      let p : ℕ = length bs in
      let long : length f ≡ p + m * p = omega (arith, e, suc-mul m p) in
      let first : length (take p f) ≡ p = omega (arith, length-take p f, long) in
      let later : length (drop p f) ≡ m * p = omega (arith, length-drop p f, long) in
      subst (λ g. Runs (copy_o2j_audio (suc m) i bs g) (IsCopiedAll n (suc m) i bs g))
        (take-drop p f)
        (Runs-bind _ (copy_o2j_frame i bs (take p f ++ drop p f)) _ _
          (copy_o2j_frame-IsCopied n i bs (take p f) (drop p f) (omega arith) v first)
          (λ q c.
            let shorter : length q.1 ≡ m * length q.0 = rw (c.rest, c.same_ports) later in
            Runs-weaken (IsCopiedAll n m (i + 1) q.0 q.1) _ (copy_o2j_audio m (i + 1) q.0 q.1)
              (copy_o2j_audio-IsCopiedAll n m (i + 1) q.0 q.1 (omega (arith, h)) c.frames shorter)
              (λ bs' k. record {
                frames = k.frames;
                back = rw (k.before i (omega arith), c.at, k.back, c.rest) refl;
                before =
                    λ j l. k.before j (omega arith) ∙ c.elsewhere j (λ e. absurd (omega arith));
              })))

  -- With a buffer of `n` frames for each port, and `n` frames of samples for as many ports, the
  -- samples that are copied to the ports and back are the same.
  pub copy_j2o_audio-copy_o2j_audio :
      (n : ℕ) (bs : List (List A)) (f : List A)
      → HasFrames n bs
      → length f ≡ n * length bs
      → Runs (copy_o2j_audio n 0 bs f) (λ bs'. HasFrames n bs' × (copy_j2o_audio n 0 bs' ≡ some f))
  copy_j2o_audio-copy_o2j_audio n bs f v e =
      Runs-weaken (IsCopiedAll n n 0 bs f) _ (copy_o2j_audio n 0 bs f)
        (copy_o2j_audio-IsCopiedAll n n 0 bs f (omega arith) v e) (λ bs' k. (k.frames, k.back))

  get_elem?-Runs : (xs : List A) (i : ℕ) → i < length xs → Runs (get_elem? xs i) (λ _. Unit)
  get_elem?-Runs [] i h = absurd (omega arith)
  get_elem?-Runs (x ∷ xs) zero h = Runs-some _ x tt
  get_elem?-Runs (x ∷ xs) (suc i) h = get_elem?-Runs xs i (omega arith)

  copy_j2o_frame-Runs :
      (n i : ℕ) (bs : List (List A))
      → i < n
      → HasFrames n bs
      → Runs (copy_j2o_frame i bs) (λ f. length f ≡ length bs)
  unfolding copy_j2o_frame
  copy_j2o_frame-Runs n i [] h v = Runs-some _ _ refl
  copy_j2o_frame-Runs n i (b ∷ bs) h v =
      Runs-bind _ (get_elem? b i) _ _ (get_elem?-Runs b i (omega (arith, v.0))) (λ a _.
        Runs-bind _ (copy_j2o_frame i bs) _ _ (copy_j2o_frame-Runs n i bs h v.1)
          (λ f e. Runs-some _ _ (omega (arith, e))))

  -- As many samples come from the ports as `m` frames of them have.
  pub copy_j2o_audio-Runs :
      (n m i : ℕ) (bs : List (List A))
      → i + m ≡ n
      → HasFrames n bs
      → Runs (copy_j2o_audio m i bs) (λ f. length f ≡ m * length bs)
  unfolding copy_j2o_audio
  copy_j2o_audio-Runs n zero i bs h v = Runs-some _ _ (omega (arith, zero-mul (length bs)))
  copy_j2o_audio-Runs n (suc m) i bs h v =
      Runs-bind _ (copy_j2o_frame i bs) _ _ (copy_j2o_frame-Runs n i bs (omega arith) v) (λ f e.
        Runs-bind _ (copy_j2o_audio m (i + 1) bs) _ _
          (copy_j2o_audio-Runs n m (i + 1) bs (omega (arith, h)) v)
          (λ f' e'.
            Runs-some _ _ (omega (arith, length-append f f', e, e', suc-mul m (length bs)))))
