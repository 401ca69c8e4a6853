-- ===== src/Tracker.antt =====
-- The in-flight tracker, broker/tracker.go: a map from ids to the tasks that workers hold.
use distqueue.Base.{ℕ, Option, none, some, List, [], ◌∷◌, ltb, if◌then◌else◌, Bytes}
use distqueue.Base.Maps.{get, insert, delete}
use distqueue.Task.{Task}

abbrev pub Tracker : Type 0
Tracker = List (Bytes × Task)

-- `Track`
unfoldable pub track : Tracker → Task → Tracker
track tr t = insert tr t.id t

-- `Remove`
unfoldable pub remove : Tracker → Bytes → Option (Task × Tracker)
remove tr id = elim (get tr id) [ none ↦ none | some t ↦ some (t, delete tr id) ]

-- `expired`: the tasks past their deadline, and the tracker without them.
unfoldable pub expired : Tracker → ℕ → List Task × Tracker
expired [] now = ([], [])
expired ((id, t) ∷ tr) now =
    let (out, rest) = expired tr now in
    if ltb t.deadline now then (t ∷ out, rest) else (out, (id, t) ∷ rest)
