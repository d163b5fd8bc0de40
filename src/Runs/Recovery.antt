-- ===== src/Runs/Recovery.antt =====
-- What the event file holds after an append, a crash and a retry.
use xbotics_hey_robot.Prelude.{
  keep-append, ℕ, ◌≤◌, ◌≡◌, refl, String, Bool, true, false, not, ◌||◌, ◌⊎◌, inl, inr, Option, none,
  some, List, [], ◌∷◌, ◌++◌, arith, if◌then◌else◌, leb, keep, last?, any, map, Option-cases,
  eq_refl,
}
use xbotics_hey_robot.Prelude.Result.{ok, raise}
use text.Mathlib.TextLemmas.{nil-append}
use xbotics_hey_robot.Prelude.Text.{strip, splitlines, concat}
use xbotics_hey_robot.Prelude.Value.{Fields}
use xbotics_hey_robot.Skills.Models.{
  ImageRef, ArtifactRef, SkillPhase, SkillStatus, SkillResult, SkillCommand, SkillEvent,
}
use xbotics_hey_robot.Runs.Artifacts.{
  ArtifactStore, pin_or_keep, pinned, put_artifact, store_trace, externalize_result, externalize,
  same_option, same_status, same_phase, is_trace, same_images, matches_result, matches_externalized,
}
use xbotics_hey_robot.Runs.Files.{
  Run, RunError, Host, is_record, records, Scan, scan, events, latest_event, externalized,
  new_result, appended_line, append_after, append_event,
}

abbrev pub clean : List String → List SkillEvent → Scan
clean lines es = record { events = es; valid = lines; broken = false }

last-append : (es : List SkillEvent) (e : SkillEvent) → last? (es ++ e ∷ []) ≡ some e
last-append [] e = refl
last-append (x ∷ []) e = refl
last-append (x ∷ y ∷ es) e = last-append (y ∷ es) e

append_nil : (xs : List String) → xs ++ [] ≡ xs
append_nil [] = refl
append_nil (x ∷ xs) = rw (append_nil xs)

module _ (h : Host) where
  -- Each line is a record that is read as the event.
  abbrev pub Decodes : List String → List SkillEvent → Type 0
  Decodes [] [] = Unit
  Decodes (line ∷ lines) (e ∷ es) =
      (is_record line ≡ true) × (h.decode line ≡ some e) × Decodes lines es
  Decodes _ _ = ⊥

  Decodes-append :
      (lines : List String) (es : List SkillEvent) (line : String) (e : SkillEvent)
      → Decodes lines es
      → is_record line ≡ true
      → h.decode line ≡ some e
      → Decodes (lines ++ line ∷ []) (es ++ e ∷ [])
  Decodes-append [] [] line e k r d = (r, d, tt)
  Decodes-append [] (x ∷ es) line e k r d = absurd k
  Decodes-append (l ∷ lines) [] line e k r d = absurd k
  Decodes-append (l ∷ lines) (x ∷ es) line e k r d =
      (k.0, k.1, Decodes-append lines es line e k.2 r d)

  keep-Decodes :
      (lines : List String) (es : List SkillEvent) → Decodes lines es → keep is_record lines ≡ lines
  keep-Decodes [] [] k = refl
  keep-Decodes [] (x ∷ es) k = absurd k
  keep-Decodes (l ∷ lines) [] k = absurd k
  keep-Decodes (l ∷ lines) (x ∷ es) k = ground (arith, k.0, keep-Decodes lines es k.2)

  scan-Decodes :
      (lines : List String) (es : List SkillEvent)
      → Decodes lines es
      → scan h lines ≡ ok (clean lines es)
  unfolding scan
  scan-Decodes [] [] k = refl
  scan-Decodes [] (x ∷ es) k = absurd k
  scan-Decodes (l ∷ lines) [] k = absurd k
  scan-Decodes (l ∷ lines) (x ∷ es) k = ground (arith, k.1, scan-Decodes lines es k.2)

  scan-torn :
      (lines : List String) (es : List SkillEvent) (line : String)
      → Decodes lines es
      → h.decode line ≡ none
      → scan h (lines ++ line ∷ []) ≡ ok (record { events = es; valid = lines; broken = true })
  unfolding scan
  scan-torn [] [] line k d = rw d
  scan-torn [] (x ∷ es) line k d = absurd k
  scan-torn (l ∷ lines) [] line k d = absurd k
  scan-torn (l ∷ lines) (x ∷ es) line k d = rw (k.1, scan-torn lines es line k.2 d)

  -- The text behind the last line end: none, or a part of a record that a crash left.
  abbrev pub IsTorn : String → Type 0
  IsTorn tail = (tail ≡ "") ⊎ ((is_record tail ≡ true) × (h.decode tail ≡ none))

  records-blank :
      (lines : List String) (es : List SkillEvent)
      → Decodes lines es
      → records (record { lines = lines; tail = "" }) ≡ lines
  unfolding strip
  records-blank lines es k =
      ground
        (arith, keep-append is_record lines ("" ∷ []), keep-Decodes lines es k, append_nil lines)

  records-torn :
      (lines : List String) (es : List SkillEvent) (tail : String)
      → Decodes lines es
      → is_record tail ≡ true
      → records (record { lines = lines; tail = tail }) ≡ lines ++ tail ∷ []
  records-torn lines es tail k r =
      ground (arith, keep-append is_record lines (tail ∷ []), keep-Decodes lines es k, r)

  -- The latest event of a run is the last one whole on disk.
  pub latest_event-IsTorn :
      (c : Option SkillCommand) (r : Option SkillResult) (lines : List String) (tail : String)
      (es : List SkillEvent)
      → Decodes lines es
      → IsTorn tail
      → latest_event h
          (record { command = c; file = record { lines = lines; tail = tail }; result = r })
        ≡ ok (last? es)
  unfolding latest_event
  latest_event-IsTorn c r lines tail es k (inl blank) =
      rw blank (ground (arith, records-blank lines es k, scan-Decodes lines es k))
  latest_event-IsTorn c r lines tail es k (inr (t, d)) =
      ground (arith, records-torn lines es tail k t, scan-torn lines es tail k d)

  -- The file that an append to it starts from, whatever a crash left behind.
  append_event-IsTorn :
      (e : SkillEvent) (c : Option SkillCommand) (r : Option SkillResult) (lines : List String)
      (tail : String) (es : List SkillEvent)
      → Decodes lines es
      → IsTorn tail
      → append_event h e
          (record { command = c; file = record { lines = lines; tail = tail }; result = r })
        ≡ append_after h
            (last? es)
            e
            (record { command = c; file = record { lines = lines; tail = "" }; result = r })
  unfolding append_event
  append_event-IsTorn e c r lines tail es k (inl blank) =
      rw blank (ground (arith, records-blank lines es k, scan-Decodes lines es k))
  append_event-IsTorn e c r lines tail es k (inr (t, d)) =
      ground (arith, records-torn lines es tail k t, scan-torn lines es tail k d)

abbrev pub is_later : Option SkillEvent → SkillEvent → Bool
is_later none e = true
is_later (some l) e = not (leb e.sequence l.sequence)

-- What a host has to keep for a repeated event to be known again: equality is reflexive, pinning
-- an image keeps its hash, and a trace is stored under the role asked for.
pub record IsFaithful (h : Host) : Type 0 where
  pub reflexive : (e : SkillEvent) → h.same_event e e ≡ true
  pub pins :
      (a : ArtifactStore)
      → h.artifacts ≡ some a
      → (run : String) (o : ImageRef) → (pin_or_keep a run o).sha256 ≡ o.sha256
  pub traces :
      (a : ArtifactStore)
      → h.artifacts ≡ some a
      → (e : SkillEvent) (size : ℕ) (d : Fields) → is_trace (put_artifact a e size d) ≡ true

same_option_refl : (o : Option String) → same_option o o ≡ true
same_option_refl none = refl
same_option_refl (some s) = eq_refl s

same_status_refl : (s : SkillStatus) → same_status s s ≡ true
same_status_refl SkillStatus.completed = refl
same_status_refl SkillStatus.failed = refl
same_status_refl SkillStatus.cancelled = refl

same_phase_refl : (p : SkillPhase) → same_phase p p ≡ true
same_phase_refl SkillPhase.accepted = refl
same_phase_refl SkillPhase.running = refl
same_phase_refl SkillPhase.progress = refl
same_phase_refl SkillPhase.completed = refl
same_phase_refl SkillPhase.failed = refl
same_phase_refl SkillPhase.cancelled = refl

same_images-map :
    (f : ImageRef → ImageRef) (os : List ImageRef)
    → ((o : ImageRef) → (f o).sha256 ≡ o.sha256)
    → same_images (map f os) os ≡ true
unfolding same_images
same_images-map f [] k = refl
same_images-map f (o ∷ os) k =
    ground (arith, k o, same_option_refl o.sha256, same_images-map f os k)

any-last :
    (p : ArtifactRef → Bool) (xs : List ArtifactRef) (x : ArtifactRef)
    → p x ≡ true
    → any p (xs ++ x ∷ []) ≡ true
any-last p [] x k = ground (arith, k)
any-last p (y ∷ xs) x k = ground (arith, any-last p xs x k)

matches_result-store_trace :
    (h : Host) (w : IsFaithful h) (a : ArtifactStore)
    → h.artifacts ≡ some a
    → (e : SkillEvent) (r : SkillResult)
    → matches_result (store_trace a h.encoded_size h.inline_limit e (pinned a e.run_id r)) r ≡ true
unfolding matches_result store_trace
matches_result-store_trace h w a k e r =
    let artifact = put_artifact a e (h.encoded_size r.extra) r.extra in
    ground (
      arith,
      same_status_refl r.status,
      eq_refl r.summary,
      same_option_refl r.failure_mode,
      same_option_refl r.error,
      same_images-map (pin_or_keep a e.run_id) r.observations (w.pins a k e.run_id),
      any-last is_trace r.artifacts artifact (w.traces a k e (h.encoded_size r.extra) r.extra),
    )

externalized-known :
    (h : Host) (w : IsFaithful h) (e : SkillEvent)
    → h.same_event e (externalized h e) || matches_externalized (externalized h e) e ≡ true
unfolding externalize externalize_result matches_externalized
externalized-known h w e = elim (Option-cases e.result) [
  | inl silent ↦ ground (arith, silent, w.reflexive e)
  | inr (r, told) ↦ elim (Option-cases h.artifacts) [
    | inl bare ↦ ground (arith, told, bare, w.reflexive e)
    | inr (a, k) ↦ ground (
      arith,
      told,
      k,
      eq_refl e.name,
      same_phase_refl e.phase,
      matches_result-store_trace h w a k e r,
    )
  ]
]

-- A text that is one line where a line feed is written after it: it has no line end itself.
abbrev pub IsOneLine : String → Type 0
IsOneLine text = splitlines (concat text "\n") ≡ text ∷ []

-- A run of which these lines, and this text behind the last line end, are on disk.
abbrev pub run_with : Option SkillCommand → Option SkillResult → List String → String → Run
run_with c r lines tail = record {
  command = c;
  file = record { lines = lines; tail = tail };
  result = r;
}

module _ (h : Host) (e : SkillEvent) (c : Option SkillCommand) (r : Option SkillResult)
    (lines : List String) (tail : String) (es : List SkillEvent) (k : Decodes h lines es)
    (torn : IsTorn h tail) where
  -- The run with the event stored.
  abbrev stored : Run
  stored = record {
    command = c;
    file = record { lines = lines ++ h.encode (externalized h e) ∷ []; tail = "" };
    result = new_result h (externalized h e).result r;
  }

  -- Where every line of the file is read as an event and a crash left at most a part of a record
  -- behind the last line end: an event with no higher number than the last one is refused, unless
  -- it is that event again, which is answered; the torn record is cut off either way, and no
  -- event is lost.
  pub append_event-stale :
      (l : SkillEvent)
      → last? es ≡ some l
      → e.sequence ≤ l.sequence
      → append_event h e (run_with c r lines tail) ≡ (
        if h.same_event e l || matches_externalized l e
            then ok l
            else raise RunError.not_increasing,
        run_with c r lines "",
      )
  unfolding append_after
  append_event-stale l known old =
      rw (append_event-IsTorn h e c r lines tail es k torn) (ground (arith, known, old))

  append_after-later :
      (o : Option SkillEvent)
      → IsOneLine (h.encode (externalized h e))
      → is_later o e ≡ true
      → append_after h o e (run_with c r lines "") ≡ (ok (externalized h e), stored)
  unfolding append_after appended_line
  append_after-later none one later =
      rw (nil-append (concat (h.encode (externalized h e)) "\n"), one) refl
  append_after-later (some l) one later =
      ground (arith, later, nil-append (concat (h.encode (externalized h e)) "\n"), one)

  module _ (one : IsOneLine (h.encode (externalized h e))) (later : is_later (last? es) e ≡ true)
      (written : is_record (h.encode (externalized h e)) ≡ true)
      (read : h.decode (h.encode (externalized h e)) ≡ some (externalized h e)) where
    append_event-stored :
        append_event h e (run_with c r lines tail) ≡ (ok (externalized h e), stored)
    append_event-stored =
        rw (append_event-IsTorn h e c r lines tail es k torn)
          (append_after-later (last? es) one later)

    stored-Decodes :
        Decodes h (lines ++ h.encode (externalized h e) ∷ []) (es ++ externalized h e ∷ [])
    stored-Decodes =
        Decodes-append h lines es (h.encode (externalized h e)) (externalized h e) k written read

    -- Under the same conditions, and where equality is reflexive, pinning keeps hashes and traces
    -- are stored under their role: an append that is tried again, as after a lost answer, gives
    -- the same answer and changes no file, also where its result was moved to an artifact.
    pub append_event-again :
        IsFaithful h
        → append_event h e (append_event h e (run_with c r lines tail)).1
          ≡ (ok (externalized h e), (append_event h e (run_with c r lines tail)).1)
    unfolding append_after externalize
    append_event-again w =
        let all_lines = lines ++ h.encode (externalized h e) ∷ [] in
        let all_events = es ++ externalized h e ∷ [] in
        rw append_event-stored (
          rw
            (append_event-IsTorn h e c (new_result h (externalized h e).result r) all_lines ""
              all_events stored-Decodes (inl refl))
            (ground (arith, last-append es (externalized h e), externalized-known h w e)))
