-- ===== src/Device/Objects/Ledger/Actions.antt =====
-- src/binder_object.rs, src/device.rs: every action of a program on its objects keeps the ledger.
use binderbinder.Base.{
  ℕ, ◌+◌, ◌%◌, ◌<◌, ◌≡◌, refl, sym, ap, ◌∙◌, Bool, true, inl, inr, some, List, [], ◌∷◌, ◌==◌, Run,
  ok, insert, arith, Bool-cases, Option-cases, subst,
}
use binderbinder.Base.Words.{usize_mod}
use binderbinder.Refcount.{ObjectId, ObjectRefState, new}
use binderbinder.Refcount.History.{
  IsSound, new-IsSound, Call, up_local, down_local, acquire, release, mark, rollback, call,
  call-effect, after, after-IsSound, IsAllowed, sum,
}
use binderbinder.Device.{Device, Handler, opened, same_id, on_refcount}
use binderbinder.Device.Objects.{
  BinderObject, Borrowed, ObjectRef, register_object, remove_binder_object, borrow, borrow_from_id,
  clone_borrowed, drop_borrowed, object_to_borrowed, ref_from_id, clone_ref, drop_ref, as_erased,
}
use binderbinder.Device.Objects.Guards
use binderbinder.Device.Objects.Guards.{
  Guard, of_borrowed, of_ref, World, Action, register, unregister, upgrade, to_object, downcast,
  clone_borrow, drop_borrow, clone_typed, drop_typed, erase, holds, without, count_for, perform,
  perform_all, HasRoom, IsGranted, AllGranted, IsRemote, remote,
}
use binderbinder.Device.Objects.Ledger.{
  IsBalanced, AllBelow-mono, put-IsBalanced, insert-cases, remove-some, count_for-below,
  holds-below,
}
use binderbinder.Device.Objects.Ledger.Counting.{Raised, raise, lower, uncounted_drop, on_missing}

-- The action returns, and leaves the world balanced.
abbrev pub Keeps : Run World (Unit {0}) → Type 0
Keeps r = (w : World) × (r ≡ ok tt w) × IsBalanced w

module _ (checks : Bool) (w : World) (v : IsBalanced w) where
  register-Keeps : (h : Handler) → IsGranted (register h) w → Keeps (perform checks (register h) w)
  unfolding perform register_object
  register-Keeps h room =
      let n = w.device.object_id_counter in
      let id : ObjectId = record { id = n; cookie = 0 } in
      let next : (n + 1) % usize_mod ≡ n + 1 = omega arith in
      (
        _,
        refl,
        record {
          sound = λ j r e. elim (insert-cases id (new id) w.device.object_refcounts j r e) [
            | inl (p, q) ↦ subst IsSound q (new-IsSound id)
            | inr (m, f) ↦ v.sound j r f
          ];
          balance = λ j r e. elim (insert-cases id (new id) w.device.object_refcounts j r e) [
            | inl (p, q) ↦ rw (← q, ← p) (sym (count_for-below n id w.guards v.owned (omega arith)))
            | inr (m, f) ↦ v.balance j r f
          ];
          counted_fresh = λ j r e. elim (insert-cases id (new id) w.device.object_refcounts j r e) [
            | inl (p, q) ↦ omega (arith, ap (λ (a : ObjectId). a.id) p)
            | inr (m, f) ↦ omega (arith, v.counted_fresh j r f)
          ];
          object_fresh = λ j k e. elim (insert-cases id h w.device.objects j k e) [
            | inl (p, q) ↦ omega (arith, ap (λ (a : ObjectId). a.id) p)
            | inr (m, f) ↦ omega (arith, v.object_fresh j k f)
          ];
          owned = AllBelow-mono n _ w.guards (omega arith) v.owned;
        },
      )

  unregister-Keeps : (id : ObjectId) → Keeps (perform checks (unregister id) w)
  unfolding perform remove_binder_object
  unregister-Keeps id = (
    _,
    refl,
    record {
      sound = λ j r e. v.sound j r (remove-some id w.device.object_refcounts j r e);
      balance = λ j r e. v.balance j r (remove-some id w.device.object_refcounts j r e);
      counted_fresh = λ j r e. v.counted_fresh j r (remove-some id w.device.object_refcounts j r e);
      object_fresh = λ j h e. v.object_fresh j h (remove-some id w.device.objects j h e);
      owned = v.owned;
    },
  )

  borrow-runs :
      (id : ObjectId) (h : Handler) (r : Raised checks id w)
      → borrow checks id h w.device
        ≡ ok (record { id = id; handler = h; increased_local_ref = r.counted }) r.device
  unfolding borrow
  borrow-runs id h r = rw r.runs

  borrow-Keeps :
      (id : ObjectId) (h : Handler)
      → HasRoom id w
      → id.id < w.device.object_id_counter
      → Keeps (Guards.of_run w.guards (λ b. some (of_borrowed b)) (borrow checks id h w.device))
  borrow-Keeps id h room below =
      let r = raise checks w v id room below in
      (_, rw (borrow-runs id h r), r.balanced r.counted (λ e. e))

  upgrade-Keeps : (id : ObjectId) → HasRoom id w → Keeps (perform checks (upgrade id) w)
  unfolding perform borrow_from_id
  upgrade-Keeps id room = elim (Option-cases (w.device.objects id)) [
    | inl e ↦ (w, rw (e, borrow_from_id), v)
    | inr (h, e) ↦
        let r = raise checks w v id room (v.object_fresh id h e) in
        (_, rw (e, borrow_from_id, borrow-runs id h r), r.balanced r.counted (λ e. e))
  ]

  to_object-Keeps :
      (o : BinderObject) → IsGranted (to_object o) w → Keeps (perform checks (to_object o) w)
  unfolding perform object_to_borrowed
  to_object-Keeps o g = borrow-Keeps o.id o.handler g.0 g.1

  downcast-Keeps : (t : ℕ) (id : ObjectId) → HasRoom id w → Keeps (perform checks (downcast t id) w)
  unfolding perform ref_from_id
  downcast-Keeps t id room = elim (Option-cases (w.device.objects id)) [
    | inl e ↦ (w, rw (e, ref_from_id), v)
    | inr (h, e) ↦ elim (Bool-cases (h.type_id == t)) [
      | inl same ↦
          let r = raise checks w v id room (v.object_fresh id h e) in
          elim (Bool-cases r.counted) [
            | inl c ↦ (_, rw (e, ref_from_id, same, r.runs, c) refl, r.balanced true (λ _. refl))
            | inr c ↦ (w, rw (e, ref_from_id, same, r.runs, c, r.untouched c) refl, v)
          ]
      | inr other ↦ (w, rw (e, ref_from_id, other), v)
    ]
  ]

  clone_borrow-Keeps :
      (b : Borrowed) → IsGranted (clone_borrow b) w → Keeps (perform checks (clone_borrow b) w)
  unfolding perform clone_borrowed
  clone_borrow-Keeps b g =
      borrow-Keeps b.id b.handler g.0 (holds-below _ (of_borrowed b) w.guards v.owned g.1)

  erase-Keeps : (r : ObjectRef) → IsGranted (erase r) w → Keeps (perform checks (erase r) w)
  unfolding perform as_erased borrow_from_id
  erase-Keeps r g = elim (Option-cases (w.device.objects r.id)) [
    | inl e ↦ absurd (g.1 e)
    | inr (h, e) ↦
        let s = raise checks w v r.id g.0 (v.object_fresh r.id h e) in
        (_, rw (e, as_erased, borrow_from_id, borrow-runs r.id h s), s.balanced s.counted (λ e. e))
  ]

  clone_typed-Keeps :
      (r : ObjectRef) → IsGranted (clone_typed r) w → Keeps (perform checks (clone_typed r) w)
  unfolding perform clone_ref
  clone_typed-Keeps r g =
      let s = raise checks w v r.id g.0 (holds-below _ (of_ref r) w.guards v.owned g.1) in
      (_, rw s.runs, s.balanced true (λ _. refl))

  drop_typed-Keeps :
      (r : ObjectRef) → IsGranted (drop_typed r) w → Keeps (perform checks (drop_typed r) w)
  unfolding perform drop_ref
  drop_typed-Keeps r g = let s = lower checks w v r.id g in (_, rw s.runs, s.balanced)

  drop_borrow-Keeps :
      (b : Borrowed) → IsGranted (drop_borrow b) w → Keeps (perform checks (drop_borrow b) w)
  unfolding perform drop_borrowed
  drop_borrow-Keeps b g = elim (Bool-cases b.increased_local_ref) [
    | inl c ↦ let s = lower checks w v b.id (rw c at g) in (_, rw (c, s.runs), s.balanced)
    | inr c ↦ (_, rw c, uncounted_drop checks w v b.id (rw c at g))
  ]

local-effect :
    (k : Call) (s : ObjectRefState) → IsRemote k → (after k s).counts.local ≡ s.counts.local
local-effect up_local s h = absurd h
local-effect down_local s h = absurd h
local-effect acquire s h = refl
local-effect release s h = refl
local-effect mark s h = ground arith
local-effect rollback s h = refl

on_call :
    (checks : Bool) (k : Call) (id : ObjectId) (d : Device) (r : ObjectRefState)
    → d.object_refcounts id ≡ some r
    → IsSound r
    → IsAllowed k r.counts
    → on_refcount (call checks k) id d
      ≡ ok true (record d { object_refcounts = insert (same_id id) (after k r) d.object_refcounts })
unfolding on_refcount
on_call checks k id d r e v h = rw (e, on_refcount, call-effect checks k r v h) refl

remote-Keeps :
    (checks : Bool) (w : World) (k : Call) (id : ObjectId)
    → IsBalanced w
    → IsGranted (remote k id) w
    → Keeps (perform checks (remote k id) w)
unfolding perform
remote-Keeps checks w k id v g = elim (Option-cases (w.device.object_refcounts id)) [
  | inl e ↦ (w, rw (on_missing checks (call checks k) id w.device e), v)
  | inr (r, e) ↦ (
    _,
    rw (on_call checks k id w.device r e (v.sound id r e) (g.1 r e)),
    put-IsBalanced w v id r (after k r) e w.guards (after-IsSound k r (v.sound id r e) (g.1 r e))
        (local-effect k r g.0 ∙ v.balance id r e) (λ j n. refl) v.owned,
  )
]

-- Every action that is granted returns, and keeps the world balanced.
pub perform-IsBalanced :
    (checks : Bool) (a : Action) (w : World)
    → IsBalanced w
    → IsGranted a w
    → Keeps (perform checks a w)
perform-IsBalanced checks (register h) w v g = register-Keeps checks w v h g
perform-IsBalanced checks (unregister id) w v g = unregister-Keeps checks w v id
perform-IsBalanced checks (upgrade id) w v g = upgrade-Keeps checks w v id g
perform-IsBalanced checks (to_object o) w v g = to_object-Keeps checks w v o g
perform-IsBalanced checks (downcast t id) w v g = downcast-Keeps checks w v t id g
perform-IsBalanced checks (clone_borrow b) w v g = clone_borrow-Keeps checks w v b g
perform-IsBalanced checks (drop_borrow b) w v g = drop_borrow-Keeps checks w v b g
perform-IsBalanced checks (clone_typed r) w v g = clone_typed-Keeps checks w v r g
perform-IsBalanced checks (drop_typed r) w v g = drop_typed-Keeps checks w v r g
perform-IsBalanced checks (erase r) w v g = erase-Keeps checks w v r g
perform-IsBalanced checks (remote k id) w v g = remote-Keeps checks w k id v g

perform_all-IsBalanced :
    (checks : Bool) (actions : List Action) (w : World)
    → IsBalanced w
    → AllGranted checks actions w
    → Keeps (perform_all checks actions w)
unfolding perform_all
perform_all-IsBalanced checks [] w v g = (w, refl, v)
perform_all-IsBalanced checks (a ∷ actions) w v g =
    let (u, e, b) = perform-IsBalanced checks a w v g.0 in
    rw e (perform_all-IsBalanced checks actions u b (g.1 u e))

abbrev pub start : World
start = record { device = opened; guards = [] }

start-IsBalanced : IsBalanced start
start-IsBalanced = record {
  sound = λ id r e. cc;
  balance = λ id r e. cc;
  counted_fresh = λ id r e. cc;
  object_fresh = λ id h e. cc;
  owned = tt;
}

-- From a freshly opened device, whatever a program does with the guards that it holds and whatever
-- the driver acquires and releases in between: no call panics, with or without overflow checks, so
-- each `Drop` finds its unit in the count. At the end the local count of each registered object is
-- the number of live guards that will lower it, and what subscribers see is the sum of its counts.
-- Granted is what ownership grants, that no counter is full, for `as_erased` that the object is
-- registered, and that the driver releases what it acquired.
pub ledger :
    (checks : Bool) (actions : List Action)
    → AllGranted checks actions start
    → (w : World) × (perform_all checks actions start ≡ ok tt w)
      × ((id : ObjectId) (r : ObjectRefState)
          → w.device.object_refcounts id ≡ some r
          → (r.counts.local ≡ count_for id w.guards) × (r.strong_count ≡ sum r.counts))
ledger checks actions g =
    let (w, e, v) = perform_all-IsBalanced checks actions start start-IsBalanced g in
    (w, e, λ id r f. (v.balance id r f, (v.sound id r f).published))
