-- ===== src/Execute/Waiting.antt =====
-- Lemmas on the waiting for files, slapos/recipe/librecipe/execute.py.
use slapos_abilian_edge.Execute.{
  Directories, Event, same_file, all_files_exist, note_event, note_events, wait_events,
}
use slapos_abilian_edge.Base.{String, ◌≡◌, refl, ap, ◌≢◌, Bool, true, false, none, some, List, []}
use slapos_abilian_edge.Base.{◌∷◌, ◌++◌, if◌then◌else◌, some_injective, All}

-- What the last of the events about a file says, or what was found at first.
abbrev pub seen : String × String → List Event → Bool → Bool
seen f [] b = b
seen f (e ∷ es) b = seen f es (if same_file f e then e.appeared else b)

abbrev pub AllSeen : List Event → Directories → Type 0
AllSeen es = All (λ d. seen d.0 es d.1 ≡ true)

abbrev pub joined : List (List Event) → List Event
joined [] = []
joined (es ∷ reads) = es ++ joined reads

all_files_exist_iff :
    (ds : Directories)
    → (all_files_exist ds ≡ true → AllSeen [] ds) × (AllSeen [] ds → all_files_exist ds ≡ true)
unfolding all_files_exist
all_files_exist_iff [] = (λ h. tt, λ h. refl)
all_files_exist_iff ((f, true) ∷ ds) =
    let (x, y) = all_files_exist_iff ds in ((λ h. (refl, x h)), (λ h. y h.1))
all_files_exist_iff ((f, false) ∷ ds) = ((λ h. cc), (λ h. h.0))

seen-note_event :
    (e : Event) (es : List Event) (ds : Directories)
    → (AllSeen es (note_event e ds) → AllSeen (e ∷ es) ds)
      × (AllSeen (e ∷ es) ds → AllSeen es (note_event e ds))
unfolding note_event
seen-note_event e es [] = (λ h. h, λ h. h)
seen-note_event e es ((f, b) ∷ ds) = go (same_file f e) (seen-note_event e es ds)
  where
    go :
        (c : Bool)
        → (AllSeen es (note_event e ds) → AllSeen (e ∷ es) ds)
          × (AllSeen (e ∷ es) ds → AllSeen es (note_event e ds))
        → (AllSeen es (if c then (f, e.appeared) ∷ note_event e ds else (f, b) ∷ note_event e ds)
            → (seen f es (if c then e.appeared else b) ≡ true) × AllSeen (e ∷ es) ds)
          × ((seen f es (if c then e.appeared else b) ≡ true) × AllSeen (e ∷ es) ds
              → AllSeen es
                  (if c then (f, e.appeared) ∷ note_event e ds else (f, b) ∷ note_event e ds))
    go true rec = ((λ h. (h.0, rec.0 h.1)), (λ h. (h.0, rec.1 h.1)))
    go false rec = ((λ h. (h.0, rec.0 h.1)), (λ h. (h.0, rec.1 h.1)))

seen-note_events :
    (es later : List Event) (ds : Directories)
    → (AllSeen later (note_events es ds) → AllSeen (es ++ later) ds)
      × (AllSeen (es ++ later) ds → AllSeen later (note_events es ds))
unfolding note_events
seen-note_events [] later ds = (λ h. h, λ h. h)
seen-note_events (e ∷ es) later ds =
    let (x, y) = seen-note_events es later (note_event e ds) in
    let (z, w) = seen-note_event e (es ++ later) ds in ((λ h. z (x h)), (λ h. y (w h)))

-- What is left when the waiting ends: of all reads, those after the ones that were needed.
abbrev pub Ended : List (List Event) → Directories → List (List Event) → Type 0
Ended reads ds left = (done : List (List Event)) × (reads ≡ done ++ left) × AllSeen (joined done) ds

wait_events_sound :
    (reads : List (List Event)) (ds : Directories) (left : List (List Event))
    → wait_events reads ds ≡ some left
    → Ended reads ds left
unfolding wait_events
wait_events_sound [] ds left h = go (all_files_exist ds) (all_files_exist_iff ds).0 h
  where
    go :
        (b : Bool)
        → (b ≡ true → AllSeen [] ds)
        → (if b then some [] else none) ≡ some left
        → Ended [] ds left
    go true all e = ([], some_injective e, all refl)
    go false all e = cc
wait_events_sound (es ∷ reads) ds left h =
    go (all_files_exist ds) (all_files_exist_iff ds).0
      (wait_events_sound reads (note_events es ds) left) h
  where
    go :
        (b : Bool)
        → (b ≡ true → AllSeen [] ds)
        → (wait_events reads (note_events es ds) ≡ some left → Ended reads (note_events es ds) left)
        → (if b then some (es ∷ reads) else wait_events reads (note_events es ds)) ≡ some left
        → Ended (es ∷ reads) ds left
    go true all rec e = ([], some_injective e, all refl)
    go false all rec e =
        let (done, q, a) = rec e in
        (es ∷ done, ap (λ x. es ∷ x) q, (seen-note_events es (joined done) ds).0 a)

at_once :
    (left : List (List Event)) (ds : Directories)
    → all_files_exist ds ≡ true
    → wait_events left ds ≢ none
unfolding wait_events
at_once [] ds h = rw h (λ e. cc)
at_once (es ∷ left) ds h = rw h (λ e. cc)

wait_events_complete :
    (done left : List (List Event)) (ds : Directories)
    → AllSeen (joined done) ds
    → wait_events (done ++ left) ds ≢ none
unfolding wait_events
wait_events_complete [] left ds a = at_once left ds ((all_files_exist_iff ds).1 a)
wait_events_complete (es ∷ done) left ds a = go (all_files_exist ds) (
    wait_events_complete done left (note_events es ds) ((seen-note_events es (joined done) ds).1 a))
  where
    go :
        (b : Bool)
        → wait_events (done ++ left) (note_events es ds) ≢ none
        → (if b then some (es ∷ (done ++ left)) else wait_events (done ++ left) (note_events es ds))
          ≢ none
    go true rec = λ e. cc
    go false rec = rec

-- The waiting ends only when the last event about each file, or the first check where there is no
-- event, says that the file exists; and it does end, at the latest, after any of the reads with
-- which this is so.
pub wait_events_lem :
    (reads : List (List Event)) (ds : Directories) (left : List (List Event))
    → (wait_events reads ds ≡ some left → Ended reads ds left)
      × (Ended reads ds left → wait_events reads ds ≢ none)
wait_events_lem reads ds left =
    (wait_events_sound reads ds left, λ (done, e, a). rw e (wait_events_complete done left ds a))
