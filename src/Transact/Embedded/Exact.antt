-- ===== src/Transact/Embedded/Exact.antt =====
-- src/device.rs: `mark_objects_as_pending_remote` and its roll-back, on a whole device.
use binderbinder.Base.{
  ℕ, ◌+◌, ◌<◌, ◌≤◌, ◌≡◌, refl, sym, ap, ◌∙◌, subst, fun_ext, Bool, Option, none, some, List, [],
  ◌∷◌, ok, Cmd, pure, ◌>>◌, Map, arith, Option-cases, inl, inr, and_then,
}
use binderbinder.Base.Words.{u32_mod}
use binderbinder.Refcount.{ObjectId, ObjectRefState, mark_pending_remote, clear_pending_remote}
use binderbinder.Refcount.History.{sum, after, call, call-effect, mark, rollback}
use binderbinder.Device.{Device, Outgoing, on_refcount}
use binderbinder.Transact.Embedded.{
  embedded_at, for_each_at, for_each_embedded_binder_object, mark_objects_as_pending_remote,
  unmark_objects_as_pending_remote,
}
use binderbinder.Transact.Embedded.Credits.{
  credit, raised, bump, bumps, bumps-bump, bumps_above, after-credit, rollback-credit,
  credit-IsSound, credit_zero, sum-credit, with_counts, HasCredit, insert-raised, bump-miss,
  bump-hit, raised-missing,
}

abbrev found_at : Option ObjectId → List ObjectId → List ObjectId
found_at none ids = ids
found_at (some id) ids = id ∷ ids

-- The offsets are in range, and the objects that they point at are these.
pub data Embeds (main_data : List ℕ) : List ℕ → List ObjectId → Type 0 where
  no_offset : Embeds main_data [] []
  at_offset :
      (offset : ℕ) (offsets : List ℕ) (o : Option ObjectId) (ids : List ObjectId)
      → embedded_at main_data offset ≡ some o
      → Embeds main_data offsets ids
      → Embeds main_data (offset ∷ offsets) (found_at o ids)

abbrev each_id : (ObjectId → Cmd Device (Unit {0})) → List ObjectId → Cmd Device (Unit {0})
each_id f [] = pure tt
each_id f (id ∷ ids) = f id >> each_id f ids

module _ (checks : Bool) (m : Map ObjectId ObjectRefState) (d : Device) where
  abbrev at_credit : (ObjectId → ℕ) → Device
  at_credit n = with_counts (raised n m) d

  mark_one :
      (id : ObjectId) (n : ObjectId → ℕ)
      → HasCredit (bump id n) m
      → (on_refcount (mark_pending_remote checks) id >> pure tt) (at_credit n)
        ≡ ok tt (at_credit (bump id n))
  unfolding on_refcount call
  mark_one id n h = elim (Option-cases (m id)) [
    | inl e ↦ rw (on_refcount, e) (ap (λ x. ok tt (with_counts x d)) (raised-missing id n m e))
    | inr (r, e) ↦
        let v = (h id r e).0 in
        let hit = bump-hit id n in
        let room : sum r.counts + n id + 1 < u32_mod = omega (arith, (h id r e).1, hit) in
        let sound = credit-IsSound (n id) r v (omega (arith, room)) in
        let allowed : sum (credit (n id) r).counts + 1 < u32_mod =
          omega (arith, room, sum-credit (n id) r) in
        rw (on_refcount, e, call-effect checks mark (credit (n id) r) sound allowed)
          (ap (λ x. ok tt (with_counts x d))
            (insert-raised id n (bump id n) m r (after mark (credit (n id) r)) e
              (after-credit (n id) r v ∙ ap (λ k. credit k r) (sym hit)) (bump-miss id n)))
  ]

  unmark_one :
      (id : ObjectId) (n : ObjectId → ℕ)
      → HasCredit (bump id n) m
      → (on_refcount (clear_pending_remote checks) id >> pure tt) (at_credit (bump id n))
        ≡ ok tt (at_credit n)
  unfolding on_refcount call
  unmark_one id n h = elim (Option-cases (m id)) [
    | inl e ↦
        rw (on_refcount, e) (ap (λ x. ok tt (with_counts x d)) (sym (raised-missing id n m e)))
    | inr (r, e) ↦
        let v = (h id r e).0 in
        let hit = bump-hit id n in
        let sound = credit-IsSound (bump id n id) r v (h id r e).1 in
        rw (on_refcount, e, call-effect checks rollback (credit (bump id n id) r) sound tt)
          (ap (λ x. ok tt (with_counts x d))
            (insert-raised id (bump id n) n m r (after rollback (credit (bump id n id) r)) e
              (ap (λ k. after rollback (credit k r)) hit ∙ rollback-credit (n id) r v)
              (λ j miss. sym (bump-miss id n j miss))))
  ]

  HasCredit-less :
      (n n' : ObjectId → ℕ) → ((j : ObjectId) → n j ≤ n' j) → HasCredit n' m → HasCredit n m
  HasCredit-less n n' le h j r e = ((h j r e).0, omega (arith, (h j r e).1, le j))

  mark_each :
      (ids : List ObjectId) (n : ObjectId → ℕ)
      → HasCredit (bumps ids n) m
      → each_id (λ id. on_refcount (mark_pending_remote checks) id >> pure tt) ids (at_credit n)
        ≡ ok tt (at_credit (bumps ids n))
  mark_each [] n h = refl
  mark_each (id ∷ ids) n h =
      ap
        (λ r.
          and_then r
            (λ _. each_id (λ i. on_refcount (mark_pending_remote checks) i >> pure tt) ids))
        (mark_one id n
          (HasCredit-less (bump id n) (bumps ids (bump id n)) (bumps_above ids (bump id n)) h))
      ∙ mark_each ids (bump id n) h

  unmark_each :
      (ids : List ObjectId) (n : ObjectId → ℕ)
      → HasCredit (bumps ids n) m
      → each_id
          (λ id. on_refcount (clear_pending_remote checks) id >> pure tt)
          ids
          (at_credit (bumps ids n))
        ≡ ok tt (at_credit n)
  unmark_each [] n h = refl
  unmark_each (id ∷ ids) n h =
      let turned = bumps-bump ids id n in
      let h' : HasCredit (bump id (bumps ids n)) m = subst (λ k. HasCredit k m) turned h in
      ap
        (λ k.
          each_id (λ i. on_refcount (clear_pending_remote checks) i >> pure tt) (id ∷ ids)
            (at_credit k))
        turned
      ∙ ap
          (λ r.
            and_then r
              (λ _. each_id (λ i. on_refcount (clear_pending_remote checks) i >> pure tt) ids))
          (unmark_one id (bumps ids n) h')
      ∙ unmark_each ids n
          (HasCredit-less (bumps ids n) (bump id (bumps ids n)) (λ j. omega arith) h')

for_each_ids :
    (f : ObjectId → Cmd Device (Unit {0})) (main_data offsets : List ℕ) (ids : List ObjectId)
    (d : Device)
    → Embeds main_data offsets ids
    → for_each_at f main_data offsets d ≡ each_id f ids d
unfolding for_each_at
for_each_ids f main_data _ _ d no_offset = refl
for_each_ids f main_data _ _ d (at_offset offset offsets none ids e rest) =
    rw (for_each_at, e) (for_each_ids f main_data offsets ids d rest)
for_each_ids f main_data _ _ d (at_offset offset offsets (some id) ids e rest) =
    rw (for_each_at, e)
      (ap (λ (g : Cmd Device (Unit {0})). (f id >> g) d)
        (fun_ext λ d'. for_each_ids f main_data offsets ids d' rest))

no_credit : ObjectId → ℕ
no_credit id = 0

raised_none : (m : Map ObjectId ObjectRefState) → HasCredit no_credit m → raised no_credit m ≡ m
unfolding no_credit
raised_none m h = fun_ext λ j. elim (Option-cases (m j)) [
  | inl e ↦ rw (raised, e)
  | inr (r, e) ↦ rw (raised, e) (ap some (credit_zero r (h j r e).0))
]

-- Room for one credit for each place that an object stands at in the transaction.
abbrev pub HasRoom : List ObjectId → Device → Type 0
HasRoom ids d = HasCredit (bumps ids (λ _. 0)) d.object_refcounts

-- The device with those credits.
abbrev pub marked : List ObjectId → Device → Device
marked ids d = with_counts (raised (bumps ids (λ _. 0)) d.object_refcounts) d

module _ (checks : Bool) (out : Outgoing) (ids : List ObjectId)
    (embeds : Embeds out.payload out.offsets ids) where
  pub mark_lem :
      (d : Device)
      → HasRoom ids d
      → mark_objects_as_pending_remote checks out d ≡ ok tt (marked ids d)
  unfolding mark_objects_as_pending_remote for_each_embedded_binder_object no_credit
  mark_lem d h =
      let m = d.object_refcounts in
      let none_yet =
        HasCredit-less checks m d no_credit (bumps ids no_credit) (bumps_above ids no_credit) h in
      for_each_ids _ out.payload out.offsets ids d embeds
      ∙ ap
          (λ x.
            each_id (λ id. on_refcount (mark_pending_remote checks) id >> pure tt) ids
              (with_counts x d))
          (sym (raised_none m none_yet))
      ∙ mark_each checks m d ids no_credit h

  pub unmark_lem :
      (d : Device)
      → HasRoom ids d
      → unmark_objects_as_pending_remote checks out (marked ids d) ≡ ok tt d
  unfolding unmark_objects_as_pending_remote for_each_embedded_binder_object no_credit
  unmark_lem d h =
      let m = d.object_refcounts in
      let none_yet =
        HasCredit-less checks m d no_credit (bumps ids no_credit) (bumps_above ids no_credit) h in
      for_each_ids _ out.payload out.offsets ids (marked ids d) embeds
      ∙ unmark_each checks m d ids no_credit h
      ∙ ap (λ x. ok tt (with_counts x d)) (raised_none m none_yet)
