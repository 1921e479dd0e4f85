-- ===== src/Device/Search.antt =====
-- The devices that are plugged in, src/overwitch.c: `ow_get_device_list` and
-- `ow_get_device_from_device_attrs`. libusb gives the list of USB devices.
use mathlib.Core.Path.{subst}
use Prim.Native.String.{String, compare}
use Prim.Native.Nat.{Ordering}
use overwitch.Prelude.{
  ℕ, zero, suc, ◌+◌, ◌≡◌, ◌==◌, ◌&&◌, refl, ap, Bool, true, false, Option, none, some, List, [],
  ◌∷◌, ◌++◌, if◌then◌else◌, length, get_elem?, arith, Bool-cases, Option-cases, inl, inr, ◌⊎◌, All,
}
use overwitch.Device.{DeviceDesc}
use overwitch.Device.Reader.{bind-found, Found, found, failed, ◌>>=◌}

-- `struct ow_device`
pub record Device : Type 0 where
  pub desc : DeviceDesc
  pub vid : ℕ
  pub pid : ℕ
  pub bus : ℕ
  pub address : ℕ

-- What libusb tells of a device. `described` is false where it fails to give the descriptor.
pub record UsbDevice : Type 0 where
  pub described : Bool
  pub id_vendor : ℕ
  pub id_product : ℕ
  pub bus : ℕ
  pub address : ℕ

abbrev pub elektron_vid : ℕ
elektron_vid = 0x1935

-- The body of the loop of `ow_get_device_list`, given what `ow_get_device_desc` finds.
unfoldable pub add_device : Found DeviceDesc → UsbDevice → List Device → Found (List Device)
add_device (failed e) u ds = found ds
add_device (found d) u ds = found (
    record { desc = d; vid = u.id_vendor; pid = u.id_product; bus = u.bus; address = u.address }
    ∷ ds)

-- `ow_get_device_list`, where `describe` is `ow_get_device_desc` at the files of the system.
unfoldable pub get_device_list : (ℕ → Found DeviceDesc) → List UsbDevice → Found (List Device)
unfolding add_device
get_device_list describe [] = found []
get_device_list describe (u ∷ us) = do
  ds ← get_device_list describe us
  if u.described && u.id_vendor == elektron_vid
      then add_device (describe u.id_product) u ds
      else found ds

-- What identifies a device: a number that is not negative, or else a name, or else the bus and the
-- address.
pub data Wanted : Type 0 where
  by_number : ℕ → Wanted
  by_name : String → Wanted
  by_address : ℕ → ℕ → Wanted

-- `strcmp (a, b) == 0`
abbrev pub same_string : String → String → Bool
same_string a b = elim (compare a b) [ Ordering.eq ↦ true | _ ↦ false ]

-- The test of the loop at the device with the index `i`.
abbrev pub matches : Wanted → ℕ → Device → Bool
matches (by_number n) i d = i == n
matches (by_name name) i d = same_string d.desc.name name
matches (by_address bus address) i d = d.bus == bus && d.address == address

-- The loop of `ow_get_device_from_device_attrs`, from the index `i` on.
unfoldable pub find_from : Wanted → ℕ → List Device → Option Device
find_from w i [] = none
find_from w i (d ∷ ds) = let rest = find_from w (i + 1) ds in if matches w i d then some d else rest

-- `ow_get_device_from_device_attrs`; `none` is the error.
unfoldable pub get_device_from_device_attrs : Wanted → Found (List Device) → Option Device
unfolding find_from
get_device_from_device_attrs w (found ds) = find_from w 0 ds
get_device_from_device_attrs w _ = none

-- None of the devices from the index `i` on is meant.
pub NoMatch : Wanted → ℕ → List Device → Type 0
NoMatch w i [] = Unit
NoMatch w i (d ∷ ds) = (matches w i d ≡ false) × NoMatch w (i + 1) ds

-- The first one that is meant.
pub record IsFirst (w : Wanted) (i : ℕ) (ds : List Device) (d : Device) : Type 0 where
  pub before : List Device
  pub after : List Device
  pub split : ds ≡ before ++ (d ∷ after)
  pub meant : matches w (i + length before) d ≡ true
  pub others : NoMatch w i before

find_from-IsFirst :
    (w : Wanted) (i : ℕ) (ds : List Device) (d : Device)
    → find_from w i ds ≡ some d
    → IsFirst w i ds d
unfolding find_from NoMatch
find_from-IsFirst w i [] d h = cc
find_from-IsFirst w i (d' ∷ ds) d h = elim (Bool-cases (matches w i d')) [
  | inl e ↦
      let same : d' ≡ d = ground (arith, e, h) in
      record {
        before = [];
        after = ds;
        split = ap (λ x. x ∷ ds) same;
        meant =
            subst (λ x. matches w (i + 0) x ≡ true) same
              (subst (λ k. matches w k d' ≡ true) (omega arith) e);
        others = tt;
      }
  | inr e ↦
      let rest = find_from-IsFirst w (i + 1) ds d (ground (arith, e, h)) in
      record {
        before = d' ∷ rest.before;
        after = rest.after;
        split = ap (λ xs. d' ∷ xs) rest.split;
        meant = subst (λ k. matches w k d ≡ true) (omega arith) rest.meant;
        others = (e, rest.others);
      }
]

find_from-none : (w : Wanted) (i : ℕ) (ds : List Device) → find_from w i ds ≡ none → NoMatch w i ds
unfolding find_from NoMatch
find_from-none w i [] h = tt
find_from-none w i (d ∷ ds) h = elim (Bool-cases (matches w i d)) [
  | inl e ↦ absurd (ground (arith, e, h))
  | inr e ↦ (e, find_from-none w (i + 1) ds (ground (arith, e, h)))
]

find_from-number :
    (n i : ℕ) (ds : List Device) → find_from (by_number (i + n)) i ds ≡ get_elem? ds n
unfolding find_from
find_from-number n i [] = refl
find_from-number zero i (d ∷ ds) = ground arith
find_from-number (suc n) i (d ∷ ds) = ground (arith, find_from-number n (i + 1) ds)

-- The search ends with the first device that is meant, or with an error if there is none.
get_device_from_device_attrs_lem :
    (w : Wanted) (ds : List Device)
    → ((d : Device) × (get_device_from_device_attrs w (found ds) ≡ some d) × IsFirst w 0 ds d)
      ⊎ ((get_device_from_device_attrs w (found ds) ≡ none) × NoMatch w 0 ds)
unfolding get_device_from_device_attrs
get_device_from_device_attrs_lem w ds = elim (Option-cases (find_from w 0 ds)) [
  | inl e ↦ inr (e, find_from-none w 0 ds e)
  | inr (d, e) ↦ inl (d, e, find_from-IsFirst w 0 ds d e)
]

-- A device that is asked for by its number is the one at that place of the list.
get_device_from_device_attrs-number :
    (n : ℕ) (ds : List Device)
    → get_device_from_device_attrs (by_number n) (found ds) ≡ get_elem? ds n
unfolding get_device_from_device_attrs
get_device_from_device_attrs-number n ds =
    subst (λ k. find_from (by_number k) 0 ds ≡ get_elem? ds n) (omega arith)
      (find_from-number n 0 ds)

-- What is listed, for the files that `describe` reads.
abbrev pub IsListed : (ℕ → Found DeviceDesc) → Device → Type 0
IsListed describe d = (d.vid ≡ elektron_vid) × (describe d.pid ≡ found d.desc)

found-injective : {A : Type 0} {a b : A} → found a ≡ found b → a ≡ b
found-injective h = cc

add_device-IsListed :
    (describe : ℕ → Found DeviceDesc) (u : UsbDevice) (ds ds' : List Device) (r : Found DeviceDesc)
    → describe u.id_product ≡ r
    → u.id_vendor ≡ elektron_vid
    → All (IsListed describe) ds
    → add_device r u ds ≡ found ds'
    → All (IsListed describe) ds'
unfolding add_device
add_device-IsListed describe u ds ds' (failed x) e v l h =
    subst (All (IsListed describe)) (found-injective h) l
add_device-IsListed describe u ds ds' (found d) e v l h =
    subst (All (IsListed describe)) (found-injective h) ((v, e), l)

-- Every device in the list has the vendor of the Overbridge devices and the description of its
-- product, whatever libusb tells.
get_device_list-IsListed :
    (describe : ℕ → Found DeviceDesc) (us : List UsbDevice) (ds : List Device)
    → get_device_list describe us ≡ found ds
    → All (IsListed describe) ds
unfolding get_device_list
get_device_list-IsListed describe [] ds h = subst (All (IsListed describe)) (found-injective h) tt
get_device_list-IsListed describe (u ∷ us) ds h =
    let (rest, e, h₁) = bind-found (get_device_list describe us) _ ds h in
    let listed : All (IsListed describe) rest = get_device_list-IsListed describe us rest e in
    elim (Bool-cases (u.described && u.id_vendor == elektron_vid)) [
      | inl t ↦
          add_device-IsListed describe u rest ds (describe u.id_product) refl (ground (arith, t))
            listed (ground (arith, t, h₁))
      | inr f ↦ subst (All (IsListed describe)) (found-injective (ground (arith, f, h₁))) listed
    ]
