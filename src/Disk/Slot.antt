-- ===== src/Disk/Slot.antt =====
-- agent/src/disk.c: which slot of the cache a device gets.
use trace_fox.Base.{
  ℕ, zero, suc, ◌+◌, ◌≤◌, ◌<◌, ◌≡◌, refl, ap, ◌∙◌, ◌≢◌, ◌⊎◌, inl, inr, true, false, none, some,
  List, [], ◌∷◌, arith, ◌==◌, eq→==, ==_iff, Bool-cases, Option-cases, length, get_or, set, take,
  drop, All, take_all, All-get, ==_false→ne,
}
use mathlib.Core.Option.{some-ne-none}
use trace_fox.Base.CString.{
  c_str, str_eq, bytes_eq, bytes_eq→eq, bytes_eq_refl, strncpy, c_str-copied,
}
use trace_fox.Disk.{DiskCache, disk_cache_slot, find_name, find_free, cache_at, zero_cache}

-- A slot's name is an array of sixteen bytes that ends with a NUL.
pub record IsSlot (c : DiskCache) : Type 0 where
  pub size : length c.name ≡ 16
  pub ends : drop 15 c.name ≡ 0 ∷ []

short_name : (s : List ℕ) (n : ℕ) → drop n s ≡ 0 ∷ [] → length (c_str s) ≤ n
unfolding c_str
short_name [] n h = omega arith
short_name (c ∷ s) zero h =
    let nul : c ≡ 0 = ap (λ l. get_or l 0 0) h in rw (eq→== c 0 nul) (omega arith)
short_name (c ∷ s) (suc n) h = let le = short_name s n h in ground arith

-- Strings of different lengths differ.
str_eq-false : (s t : List ℕ) → length (c_str s) < length (c_str t) → str_eq s t ≡ false
unfolding str_eq
str_eq-false s t h = elim (Bool-cases (bytes_eq (c_str s) (c_str t))) [
  | inl e ↦ absurd (omega (arith, ap (length {A = ℕ}) (bytes_eq→eq (c_str s) (c_str t) e)))
  | inr e ↦ e
]

find_name-long :
    (name : List ℕ) (i : ℕ) (cache : List DiskCache)
    → 16 ≤ length (c_str name)
    → All IsSlot cache
    → find_name name i cache ≡ none
unfolding find_name
find_name-long name i [] long v = refl
find_name-long name i (c ∷ cs) long (v, vs) =
    rw (str_eq-false c.name name (omega (arith, short_name c.name 15 v.ends)))
      (find_name-long name (i + 1) cs long vs)

-- A slot is free while its name is empty.
abbrev pub IsTaken : DiskCache → Type 0
IsTaken c = get_or c.name 0 0 ≢ 0

-- A free slot that is found lies in the cache and has an empty name; none is found only if all slots are taken.
find_free-free :
    (i : ℕ) (cache : List DiskCache)
    → ((find_free i cache ≡ none) × All IsTaken cache)
      ⊎ ((j : ℕ) × (find_free i cache ≡ some (i + j))
          × (j < length cache)
          × (get_or (cache_at cache j).name 0 0 ≡ 0))
unfolding find_free
find_free-free i [] = inl (refl, tt)
find_free-free i (c ∷ cs) = elim (Bool-cases (get_or c.name 0 0 == 0)) [
  | inl e ↦
      let here : i ≡ i + 0 = omega arith in
      inr (0, rw e (ap some here), omega arith, (==_iff (get_or c.name 0 0) 0).0 e)
  | inr e ↦ elim (find_free-free (i + 1) cs) [
    | inl (n, taken) ↦ inl (rw e n, (==_false→ne (get_or c.name 0 0) 0 e, taken))
    | inr (j, f, lt, nul) ↦
        let there : i + 1 + j ≡ i + suc j = omega arith in
        inr (suc j, rw e (f ∙ ap some there), omega arith, nul)
  ]
]

find_name-set :
    (name : List ℕ) (i : ℕ) (cache : List DiskCache) (j : ℕ) (c' : DiskCache)
    → find_name name i cache ≡ none
    → j < length cache
    → str_eq c'.name name ≡ true
    → find_name name i (set cache j c') ≡ some (i + j)
unfolding find_name
find_name-set name i [] j c' h lt e = absurd (omega arith)
find_name-set name i (c ∷ cs) zero c' h lt e =
    let here : i ≡ i + 0 = omega arith in rw e (ap some here)
find_name-set name i (c ∷ cs) (suc j) c' h lt e = elim (Bool-cases (str_eq c.name name)) [
  | inl same ↦ let k : some i ≡ none = rw same at h in absurd (some-ne-none i k)
  | inr other ↦
      let k : find_name name (i + 1) cs ≡ none = rw other at h in
      let there : i + 1 + j ≡ i + suc j = omega arith in
      rw other (find_name-set name (i + 1) cs j c' k (omega arith) e ∙ ap some there)
]

-- A name of at most fifteen bytes is stored whole.
stored_name :
    (c : DiskCache) (name : List ℕ)
    → IsSlot c
    → length (c_str name) ≤ 15
    → str_eq (strncpy c.name name 15) name ≡ true
unfolding str_eq strncpy
stored_name c name v short =
    rw (v.ends, c_str-copied 15 name [], take_all 15 (c_str name) short)
      (bytes_eq_refl (c_str name))

-- A device whose name has at most fifteen bytes keeps its slot: whenever `disk_cache_slot` returns a slot, the same
-- call on the cache that it leaves returns this slot again and leaves the cache as it is.
pub disk_cache_slot-again :
    (cache : List DiskCache) (name : List ℕ)
    → All IsSlot cache
    → length (c_str name) ≤ 15
    → (disk_cache_slot cache name ≡ none)
      ⊎ ((i : ℕ) × (cache' : List DiskCache) × (disk_cache_slot cache name ≡ some (i, cache'))
          × (disk_cache_slot cache' name ≡ some (i, cache')))
unfolding disk_cache_slot
disk_cache_slot-again cache name v short = elim (Option-cases (find_name name 0 cache)) [
  | inr (i, e) ↦ inr (i, cache, rw (e, disk_cache_slot) refl, rw (e, disk_cache_slot) refl)
  | inl none_named ↦ elim (find_free-free 0 cache) [
    | inl (none_free, taken) ↦ inl (rw (none_named, none_free, disk_cache_slot) refl)
    | inr (j, f, lt, nul) ↦
        let c = cache_at cache j in
        let c' : DiskCache = record c { name = strncpy c.name name 15 } in
        let same =
          stored_name c name
            (All-get IsSlot cache j zero_cache v (record { size = refl; ends = refl })) short in
        let at_j : 0 + j ≡ j = omega arith in
        let named : find_name name 0 (set cache j c') ≡ some j =
          find_name-set name 0 cache j c' none_named lt same ∙ ap some at_j in
        inr (
          j,
          set cache j c',
          rw (none_named, f, at_j, disk_cache_slot) refl,
          rw (named, disk_cache_slot) refl,
        )
  ]
]

get-set :
    (cache : List DiskCache) (i : ℕ) (c : DiskCache)
    → i < length cache
    → cache_at (set cache i c) i ≡ c
get-set [] i c lt = absurd (omega arith)
get-set (x ∷ cache) zero c lt = refl
get-set (x ∷ cache) (suc i) c lt = get-set cache i c (omega arith)

get-set_other :
    (cache : List DiskCache) (i j : ℕ) (c : DiskCache)
    → i ≢ j
    → cache_at (set cache i c) j ≡ cache_at cache j
get-set_other [] i j c ne = refl
get-set_other (x ∷ cache) zero zero c ne = absurd (ne refl)
get-set_other (x ∷ cache) zero (suc j) c ne = refl
get-set_other (x ∷ cache) (suc i) zero c ne = refl
get-set_other (x ∷ cache) (suc i) (suc j) c ne = get-set_other cache i j c (λ e. ne (ap suc e))

-- What a device takes in a sample: a slot that was free, and holds the first fifteen bytes of its name afterwards,
-- while every other slot is as before.
pub record Takes (name : List ℕ) (cache : List DiskCache) (i : ℕ) (cache' : List DiskCache)
    : Type 0 where
  pub inside : i < length cache
  pub was_free : get_or (cache_at cache i).name 0 0 ≡ 0
  pub named : c_str (cache_at cache' i).name ≡ take 15 (c_str name)
  pub others : (j : ℕ) → i ≢ j → cache_at cache' j ≡ cache_at cache j

-- A device whose name has sixteen bytes or more never finds its slot again: whenever the cache has a free slot,
-- `disk_cache_slot` takes one, stores the first fifteen bytes of the name there, and changes no other slot; it returns
-- none exactly where all slots are taken.
pub disk_cache_slot-long :
    (cache : List DiskCache) (name : List ℕ)
    → All IsSlot cache
    → 16 ≤ length (c_str name)
    → ((disk_cache_slot cache name ≡ none) × All IsTaken cache)
      ⊎ ((i : ℕ) × (cache' : List DiskCache) × (disk_cache_slot cache name ≡ some (i, cache'))
          × Takes name cache i cache')
unfolding disk_cache_slot strncpy
disk_cache_slot-long cache name v long = elim (find_free-free 0 cache) [
  | inl (none_free, taken) ↦
      inl (rw (find_name-long name 0 cache long v, none_free, disk_cache_slot) refl, taken)
  | inr (j, f, lt, nul) ↦
      let c = cache_at cache j in
      let c' : DiskCache = record c { name = strncpy c.name name 15 } in
      let at_j : 0 + j ≡ j = omega arith in
      let slot = All-get IsSlot cache j zero_cache v (record { size = refl; ends = refl }) in
      inr (
        j,
        set cache j c',
        rw (find_name-long name 0 cache long v, f, at_j, disk_cache_slot) refl,
        record {
          inside = lt;
          was_free = nul;
          named = rw (get-set cache j c' lt, slot.ends) (c_str-copied 15 name []);
          others = λ k ne. get-set_other cache j k c' ne;
        },
      )
]
