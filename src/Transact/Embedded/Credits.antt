-- ===== src/Transact/Embedded/Credits.antt =====
-- src/device.rs: the credits that sends hold on the counts of objects.
use binderbinder.Base.{
  ℕ, ◌+◌, ◌<◌, ◌≤◌, ◌≡◌, refl, ap, ◌∙◌, subst, fun_ext, false, none, some, List, [], ◌∷◌, ◌==◌,
  if◌then◌else◌, Map, insert, arith, Bool-cases, inl, inr,
}
use binderbinder.Base.Words.{u32_mod}
use binderbinder.Refcount.{ObjectId, ObjectRefState}
use binderbinder.Refcount.History.{IsSound, sum, settled, after, mark, rollback}
use binderbinder.Device.{Device, same_id, same_id-eq, same_id_self}

-- `k` credits more, if the object can take any.
abbrev pub credit : ℕ → ObjectRefState → ObjectRefState
credit k s =
    if s.counts.remote == 0
    then settled s (record s.counts { pending = s.counts.pending + k })
    else s

abbrev pub raised : (ObjectId → ℕ) → Map ObjectId ObjectRefState → Map ObjectId ObjectRefState
raised n m j = elim (m j) [ none ↦ none | some r ↦ some (credit (n j) r) ]

abbrev pub bump : ObjectId → (ObjectId → ℕ) → ObjectId → ℕ
bump id n j = n j + (if same_id id j then 1 else 0)

abbrev pub bumps : List ObjectId → (ObjectId → ℕ) → ObjectId → ℕ
bumps [] n = n
bumps (id ∷ ids) n = bumps ids (bump id n)

pub bumps-bump :
    (ids : List ObjectId) (id : ObjectId) (n : ObjectId → ℕ)
    → bumps ids (bump id n) ≡ bump id (bumps ids n)
bumps-bump [] id n = refl
bumps-bump (i ∷ ids) id n =
    let swapped : bump i (bump id n) ≡ bump id (bump i n) = fun_ext λ j. omega arith in
    ap (bumps ids) swapped ∙ bumps-bump ids id (bump i n)

pub bumps_above : (ids : List ObjectId) (n : ObjectId → ℕ) (j : ObjectId) → n j ≤ bumps ids n j
bumps_above [] n j = omega arith
bumps_above (i ∷ ids) n j = omega (arith, bumps_above ids (bump i n) j)

pub after-credit :
    (k : ℕ) (r : ObjectRefState) → IsSound r → after mark (credit k r) ≡ credit (k + 1) r
after-credit k r v = ground arith

pub rollback-credit :
    (k : ℕ) (r : ObjectRefState) → IsSound r → after rollback (credit (k + 1) r) ≡ credit k r
rollback-credit k r v = ground arith

pub credit-IsSound :
    (k : ℕ) (r : ObjectRefState) → IsSound r → sum r.counts + k < u32_mod → IsSound (credit k r)
credit-IsSound k r v h = ground arith

pub credit_zero : (r : ObjectRefState) → IsSound r → credit 0 r ≡ r
credit_zero r v = ground arith

pub sum-credit : (k : ℕ) (r : ObjectRefState) → sum (credit k r).counts ≤ sum r.counts + k
sum-credit k r = ground arith

abbrev pub with_counts : Map ObjectId ObjectRefState → Device → Device
with_counts m d = record d { object_refcounts = m }

-- Every counted object is sound, with room for as many credits as `n` says.
abbrev pub HasCredit : (ObjectId → ℕ) → Map ObjectId ObjectRefState → Type 0
HasCredit n m =
    (j : ObjectId) (r : ObjectRefState) → m j ≡ some r → IsSound r × (sum r.counts + n j < u32_mod)

pub insert-raised :
    (id : ObjectId) (n n' : ObjectId → ℕ) (m : Map ObjectId ObjectRefState) (r s : ObjectRefState)
    → m id ≡ some r
    → s ≡ credit (n' id) r
    → ((j : ObjectId) → same_id id j ≡ false → n j ≡ n' j)
    → insert (same_id id) s (raised n m) ≡ raised n' m
insert-raised id n n' m r s e f g = fun_ext λ j. elim (Bool-cases (same_id id j)) [
  | inl hit ↦
      let same = same_id-eq id j hit in
      subst (λ i. insert (same_id id) s (raised n m) i ≡ raised n' m i) same
        (rw (same_id_self id, raised, e) (ap some f))
  | inr miss ↦
      rw miss (ap (λ k. elim (m j) [ none ↦ none | some r ↦ some (credit k r) ]) (g j miss))
]

pub bump-miss :
    (id : ObjectId) (n : ObjectId → ℕ) (j : ObjectId) → same_id id j ≡ false → n j ≡ bump id n j
bump-miss id n j miss = rw miss (omega arith)

pub bump-hit : (id : ObjectId) (n : ObjectId → ℕ) → bump id n id ≡ n id + 1
bump-hit id n = rw (same_id_self id)

pub raised-missing :
    (id : ObjectId) (n : ObjectId → ℕ) (m : Map ObjectId ObjectRefState)
    → m id ≡ none
    → raised n m ≡ raised (bump id n) m
raised-missing id n m e = fun_ext λ j. elim (Bool-cases (same_id id j)) [
  | inl hit ↦
      subst (λ i. raised n m i ≡ raised (bump id n) m i) (same_id-eq id j hit) (rw (raised, e))
  | inr miss ↦
      ap (λ k. elim (m j) [ none ↦ none | some r ↦ some (credit k r) ]) (bump-miss id n j miss)
]
