-- ===== src/Store/Spec.antt =====
-- store/store.go: what a store promises of its atomic operations, on the view that its clients have: a
-- value, or nothing, for each key. Both stores are held against it.
use onionguard.Base.{Bool, true, false, Option, none, some, Bytes, same, if◌then◌else◌}

abbrev pub View : Type 0
View = Bytes → Option Bytes

-- Whether a key shows the expected value.
abbrev pub shows : Bytes → Option Bytes → Bool
shows expected none = false
shows expected (some v) = same v expected

abbrev pub without : Bytes → View → View
without k view j = if same k j then none else view j

-- CompareAndDelete
abbrev pub compare_and_delete : Bytes → Bytes → View → Bool × View
compare_and_delete k expected view =
    if shows expected (view k) then (true, without k view) else (false, view)

-- CompareAndTouch, at the moment of the call.
abbrev pub compare_and_touch : Bytes → Bytes → View → Bool × View
compare_and_touch k expected view = (shows expected (view k), view)

-- GetDel: the value, if there is one.
abbrev pub get_del : Bytes → View → Option Bytes × View
get_del k view = (view k, without k view)
