-- ===== src/Optimizer/FilterScan.antt =====
-- merge_filter_scan.cpp: the predicate of a filter over a scan without one becomes the scan's.
use learning_journey.Base.{refl, sym, some, none}
use mathlib.Core.Path.{subst}
use learning_journey.Types.{Library}
use learning_journey.Plans.{seq_scan, filter, nested_loop_join, projection, other}
use learning_journey.Plans.Meaning.{Database, meaning}
use learning_journey.Plans.Sound.{Arity, Sound}
use learning_journey.Optimizer.{merge_filter_scan_node, optimize_merge_filter_scan}
use learning_journey.Optimizer.Traversal.{Keeps, unchanged, bottom_up-Kept}

module _ {D K : Type 0} (lib : Library D) (db : Database D K) where
  node-Kept : Keeps lib db merge_filter_scan_node
  unfolding merge_filter_scan_node meaning Sound
  node-Kept (filter output predicate (seq_scan o oid name none)) (sound, columns, _, _) = (
    seq_scan output oid name (some predicate),
    refl,
    record {
      sound = subst (λ n. Arity n (db.tables oid)) (sym columns) sound;
      columns = refl;
      same = refl;
    },
  )
  node-Kept (filter output predicate (seq_scan o oid name (some p))) sound =
      unchanged lib db (filter output predicate (seq_scan o oid name (some p))) sound
  node-Kept (filter output predicate (filter o p c)) sound =
      unchanged lib db (filter output predicate (filter o p c)) sound
  node-Kept (filter output predicate (nested_loop_join o l r p j)) sound =
      unchanged lib db (filter output predicate (nested_loop_join o l r p j)) sound
  node-Kept (filter output predicate (projection o es c)) sound =
      unchanged lib db (filter output predicate (projection o es c)) sound
  node-Kept (filter output predicate (other o k cs)) sound =
      unchanged lib db (filter output predicate (other o k cs)) sound
  node-Kept (seq_scan o oid name p) sound = unchanged lib db (seq_scan o oid name p) sound
  node-Kept (nested_loop_join o l r p j) sound = unchanged lib db (nested_loop_join o l r p j) sound
  node-Kept (projection o es c) sound = unchanged lib db (projection o es c) sound
  node-Kept (other o k cs) sound = unchanged lib db (other o k cs) sound

  pub optimize-FilterScan : Keeps lib db optimize_merge_filter_scan
  unfolding optimize_merge_filter_scan
  optimize-FilterScan = bottom_up-Kept lib db merge_filter_scan_node node-Kept
