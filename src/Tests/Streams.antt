-- ===== src/Tests/Streams.antt =====
-- The stream commands of store.py at concrete inputs.
use kedis_python.Prelude.{false, none, some, pos, ◌≡◌, List, [], ◌∷◌, arith, Text, codes}
use kedis_python.Store.Command.{empty_store}
use kedis_python.Store.Session.{empty_store-IsCoherent}
use kedis_python.Store.View.{view}
use kedis_python.Store.Streams.{AddOptions, xadd}
use kedis_python.Store.StreamView.{add_outcome, Agrees}
use kedis_python.Store.AddView.{Outcome, xadd-Outcome}
use kedis_python.Store.State.{stream}
use kedis_python.Stream.Entries.{Stream}
use kedis_python.Stream.Valid.{IsValid}
use kedis_python.Dict

abbrev trimming : AddOptions
trimming = record { id_spec = codes "*"; maxlen = some (pos 1); minid = none; nomkstream = false }

abbrev entry : List Text
entry = codes "f" ∷ codes "v" ∷ []

empty_view : (v : Stream) → view (empty_store 4) 5 (codes "k") ≡ some (stream v) → IsValid v
unfolding view Dict.get
empty_view v h = absurd (ground (arith, h))

xadd-Outcome_example :
    let r = xadd (empty_store 4) (codes "k") entry trimming 5 5000 in
    Agrees
      (empty_store 4)
      5
      (codes "k")
      r
      (add_outcome (view (empty_store 4) 5 (codes "k")) entry trimming 5000)
    × Outcome (empty_store 4) 5 (codes "k") entry trimming r.0 r.1
xadd-Outcome_example =
    xadd-Outcome (empty_store 4) (codes "k") entry trimming 5 5000
      (empty_store-IsCoherent 4 (omega arith)) (omega arith) empty_view (omega arith)
