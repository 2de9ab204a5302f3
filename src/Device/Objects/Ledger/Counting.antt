-- ===== src/Device/Objects/Ledger/Counting.antt =====
-- src/binder_object.rs: a guard made raises the local count of its object, and a guard dropped
-- lowers it, with the world balanced before and after.
use binderbinder.Base.{
  ◌+◌, ◌<◌, ◌≡◌, refl, ap, Bool, true, false, inl, inr, none, some, List, [], ◌∷◌, ok, Cmd, insert,
  arith, Bool-cases, Option-cases,
}
use binderbinder.Base.Words.{u32_mod}
use binderbinder.Refcount.{ObjectId, ObjectRefState, RefCounts, increase_local, decrease_local}
use binderbinder.Refcount.History.{
  IsSound, sum, after, call, call-effect, after-IsSound, up_local, down_local,
}
use binderbinder.Device.{Device, same_id, same_id-eq, same_id_self, on_refcount}
use binderbinder.Device.Objects.Guards.{Guard, World, holds, without, HasRoom}
use binderbinder.Device.Objects.Ledger.{
  IsBalanced, put, put-IsBalanced, guards-IsBalanced, AllBelow-without, count_for-without,
}

abbrev pub guard_of : ObjectId → Bool → Guard
guard_of id c = record { id = id; counted = c }

module _ (checks : Bool) where
  pub on_up :
      (id : ObjectId) (d : Device) (r : ObjectRefState)
      → d.object_refcounts id ≡ some r
      → IsSound r
      → sum r.counts + 1 < u32_mod
      → on_refcount (increase_local checks) id d
        ≡ ok true (record d {
          object_refcounts = insert (same_id id) (after up_local r) d.object_refcounts;
        })
  unfolding on_refcount call
  on_up id d r e v h = rw (e, on_refcount, call-effect checks up_local r v h) refl

  pub on_down :
      (id : ObjectId) (d : Device) (r : ObjectRefState)
      → d.object_refcounts id ≡ some r
      → IsSound r
      → 0 < r.counts.local
      → on_refcount (decrease_local checks) id d
        ≡ ok true (record d {
          object_refcounts = insert (same_id id) (after down_local r) d.object_refcounts;
        })
  unfolding on_refcount call
  on_down id d r e v h = rw (e, on_refcount, call-effect checks down_local r v h) refl

  pub on_missing :
      (m : Cmd ObjectRefState RefCounts) (id : ObjectId) (d : Device)
      → d.object_refcounts id ≡ none
      → on_refcount m id d ≡ ok false d
  unfolding on_refcount
  on_missing m id d e = rw (e, on_refcount)

-- A test that a missing object cannot pass: the two ids differ.
missing-differs :
    (d : Device) (id j : ObjectId) (r : ObjectRefState)
    → d.object_refcounts id ≡ none
    → d.object_refcounts j ≡ some r
    → same_id id j ≡ false
missing-differs d id j r e f = elim (Bool-cases (same_id id j)) [
  | inl hit ↦ cc (ap d.object_refcounts (same_id-eq id j hit))
  | inr miss ↦ miss
]

-- A raise: it never panics, the answer says whether the object is counted, and the world is
-- balanced with a guard that may be dropped accordingly.
pub record Raised (checks : Bool) (id : ObjectId) (w : World) : Type 0 where
  pub counted : Bool
  pub device : Device
  pub runs : on_refcount (increase_local checks) id w.device ≡ ok counted device
  pub untouched : counted ≡ false → device ≡ w.device
  pub balanced :
      (c : Bool)
      → (counted ≡ true → c ≡ true)
      → IsBalanced (record { device = device; guards = guard_of id c ∷ w.guards })

pub record Lowered (checks : Bool) (id : ObjectId) (gs : List Guard) (w : World) : Type 0 where
  pub counted : Bool
  pub device : Device
  pub runs : on_refcount (decrease_local checks) id w.device ≡ ok counted device
  pub balanced : IsBalanced (record { device = device; guards = gs })

module _ (checks : Bool) (w : World) (v : IsBalanced w) where
  -- A guard for an object with no refcounts changes no count that matters.
  pub unregistered_guard :
      (id : ObjectId) (c : Bool)
      → w.device.object_refcounts id ≡ none
      → id.id < w.device.object_id_counter
      → IsBalanced (record w { guards = guard_of id c ∷ w.guards })
  unregistered_guard id c e below =
      guards-IsBalanced w (guard_of id c ∷ w.guards) v
        (λ j r f. ground (arith, missing-differs w.device id j r e f)) (below, v.owned)

  pub raise :
      (id : ObjectId) → HasRoom id w → id.id < w.device.object_id_counter → Raised checks id w
  raise id room below = elim (Option-cases (w.device.object_refcounts id)) [
    | inl e ↦ record {
      counted = false;
      device = w.device;
      runs = on_missing checks (increase_local checks) id w.device e;
      untouched = λ _. refl;
      balanced = λ c _. unregistered_guard id c e below;
    }
    | inr (r, e) ↦ record {
      counted = true;
      device = (put w v id r (after up_local r) e []).device;
      runs = on_up checks id w.device r e (v.sound id r e) (room r e);
      untouched = λ f. cc;
      balanced = λ c is.
          put-IsBalanced w v id r (after up_local r) e (guard_of id c ∷ w.guards)
            (after-IsSound up_local r (v.sound id r e) (room r e))
            (ground (arith, v.balance id r e, is, same_id_self id)) (λ j n. ground arith)
            (below, v.owned);
    }
  ]

  holds-local :
      (id : ObjectId) (r : ObjectRefState)
      → w.device.object_refcounts id ≡ some r
      → holds (guard_of id true) w.guards ≡ true
      → 0 < r.counts.local
  holds-local id r e h =
      ground (
        arith,
        v.balance id r e,
        same_id_self id,
        count_for-without id (guard_of id true) w.guards h,
      )

  pub lower :
      (id : ObjectId)
      → holds (guard_of id true) w.guards ≡ true
      → Lowered checks id (without (guard_of id true) w.guards) w
  lower id h = elim (Option-cases (w.device.object_refcounts id)) [
    | inl e ↦ record {
      counted = false;
      device = w.device;
      runs = on_missing checks (decrease_local checks) id w.device e;
      balanced =
          guards-IsBalanced w (without (guard_of id true) w.guards) v
            (λ j r f. ground (
              arith,
              missing-differs w.device id j r e f,
              count_for-without j (guard_of id true) w.guards h,
            ))
            (AllBelow-without w.device.object_id_counter (guard_of id true) w.guards v.owned);
    }
    | inr (r, e) ↦
        let pos : 0 < r.counts.local = holds-local id r e h in
        record {
          counted = true;
          device = (put w v id r (after down_local r) e []).device;
          runs = on_down checks id w.device r e (v.sound id r e) pos;
          balanced =
              put-IsBalanced w v id r (after down_local r) e (without (guard_of id true) w.guards)
                (after-IsSound down_local r (v.sound id r e) pos)
                (ground (
                  arith,
                  v.balance id r e,
                  same_id_self id,
                  count_for-without id (guard_of id true) w.guards h,
                ))
                (λ j n. ground (arith, count_for-without j (guard_of id true) w.guards h))
                (AllBelow-without w.device.object_id_counter (guard_of id true) w.guards v.owned);
        }
  ]

  -- A guard that found no refcount changes none when it goes.
  pub uncounted_drop :
      (id : ObjectId)
      → holds (guard_of id false) w.guards ≡ true
      → IsBalanced (record w { guards = without (guard_of id false) w.guards })
  uncounted_drop id h =
      guards-IsBalanced w (without (guard_of id false) w.guards) v
        (λ j r f. ground (arith, count_for-without j (guard_of id false) w.guards h))
        (AllBelow-without w.device.object_id_counter (guard_of id false) w.guards v.owned)
