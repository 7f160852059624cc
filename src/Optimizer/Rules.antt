-- ===== src/Optimizer/Rules.antt =====
-- The rules one after another.
use learning_journey.Base.{List, [], ◌∷◌, Outcome, ok, ◌>>=◌, bind_then}
use learning_journey.Types.{Library}
use learning_journey.Plans.{Plan}
use learning_journey.Plans.Meaning.{Database}
use learning_journey.Optimizer.{
  optimize_merge_projection, optimize_merge_filter_scan, optimize_merge_filter_nlj,
  optimize_eliminate_true_filter,
}
use learning_journey.Optimizer.Traversal.{Keeps, unchanged, Kept-trans}
use learning_journey.Optimizer.TrueFilter.{optimize-TrueFilter}
use learning_journey.Optimizer.FilterScan.{optimize-FilterScan}
use learning_journey.Optimizer.FilterJoin.{optimize-FilterJoin}
use learning_journey.Optimizer.Projection.{optimize-Projection}

pub data Rule : Type 0 where
  merge_projection merge_filter_nlj merge_filter_scan eliminate_true_filter : Rule

module _ {D K : Type 0} (lib : Library D) where
  abbrev pub optimize_by : Rule → Plan D K → Outcome (Plan D K)
  optimize_by merge_projection = optimize_merge_projection
  optimize_by merge_filter_nlj = optimize_merge_filter_nlj lib
  optimize_by merge_filter_scan = optimize_merge_filter_scan
  optimize_by eliminate_true_filter = optimize_eliminate_true_filter lib

  unfoldable pub optimize : List Rule → Plan D K → Outcome (Plan D K)
  optimize [] plan = ok plan
  optimize (rule ∷ rules) plan = optimize_by rule plan >>= optimize rules

module _ {D K : Type 0} (lib : Library D) (db : Database D K) where
  optimize_by-Kept : (rule : Rule) → Keeps lib db (optimize_by lib rule)
  optimize_by-Kept merge_projection = optimize-Projection lib db
  optimize_by-Kept merge_filter_nlj = optimize-FilterJoin lib db
  optimize_by-Kept merge_filter_scan = optimize-FilterScan lib db
  optimize_by-Kept eliminate_true_filter = optimize-TrueFilter lib db

  -- However the four rules follow one another, a plan that fits its schemas, whose filters read
  -- columns of their child, and whose constant predicates are TRUE or FALSE and stand in INNER joins
  -- when they are those of joins, becomes, without an error, a plan of which all this is true, that
  -- has as many columns and gives the same tuples in the same order, or the same error.
  pub optimize-Kept : (rules : List Rule) → Keeps lib db (optimize lib rules)
  unfolding optimize
  optimize-Kept [] plan sound = unchanged lib db plan sound
  optimize-Kept (rule ∷ rules) plan sound =
      let (next, once, k) = optimize_by-Kept rule plan sound in
      let (made, run, h) = optimize-Kept rules next k.sound in
      (made, bind_then (optimize_by lib rule plan) _ once run, Kept-trans lib db k h)
