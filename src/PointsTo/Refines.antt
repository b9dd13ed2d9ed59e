-- ===== src/PointsTo/Refines.antt =====
-- SmallOffsetsPointsToSet.h against SimplePointsToSet.h.
use dg.Base.{◌≡◌, ◌<◌, refl}
use dg.Offset.{unknown}
use dg.Adt.Bitvector
use dg.PointsTo.{Pointer}
use dg.PointsTo.Simple
use dg.PointsTo.Simple.Laws as SimpleLaws
use dg.PointsTo.Small
use dg.PointsTo.Small.Laws as SmallLaws

-- Where a set with small offsets and a well-formed bitvector points to what a simple set points
-- to, it still does after the same pointer was added to both, with nodes numbered from 1.
pub add-Simple :
    (p : Pointer) (s : Small.PointsToSet) (r : Simple.PointsToSet)
    → 0 < p.target
    → Bitvector.IsValid s.pointers
    → ((q : Pointer) → 0 < q.target → Small.points_to s q ≡ Simple.points_to r q)
    → (q : Pointer) → 0 < q.target
    → Small.points_to (Small.add p s).0 q ≡ Simple.points_to (Simple.add p r).0 q
add-Simple p s r h v same q k =
    rw
      (
        SmallLaws.points_to-add p s q h k v,
        SimpleLaws.points_to-add_simple p r q,
        same (record p { offset = unknown }) h,
        same q k,
      )
      refl
