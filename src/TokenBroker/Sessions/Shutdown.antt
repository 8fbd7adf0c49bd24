-- ===== src/TokenBroker/Sessions/Shutdown.antt =====
-- `Shutdown` of session/manager.go: the range that cleans up every session.
use kagenti_operator.Prelude.{
  ◌≡◌, refl, ◌∙◌, false, Text, beq, beq_iff, lit, none, some, Option-cases, Bool-cases, inl, inr,
  [], ◌∷◌, ◌==◌, arith, if◌then◌else◌, ◌⊎◌,
}
use kagenti_operator.GoMap
use kagenti_operator.GoMap.{GoMap, get-remove}
use kagenti_operator.TokenBroker.Channel.{opened, closed, panicked, Signal-cases}
use kagenti_operator.TokenBroker.Session.{Session, Pointer}
use kagenti_operator.TokenBroker.Sessions.{
  SessionManager, stop_timer, stop_found, cleanup_session, cleanup_all, halted, shutdown, notified,
}
use kagenti_operator.TokenBroker.Sessions.Invariant.{IsValid}
use kagenti_operator.TokenBroker.Sessions.Invariant.Changes.{cleanup-IsValid, others}
use kagenti_operator.TokenBroker.Sessions.Timers.{TimersValid, stop_all-Armed}

-- The entries that the range has still to visit are entries of the map.
abbrev Remaining : SessionManager → GoMap Pointer → Type 0
Remaining m es =
    (k : Text) (p : Pointer) → GoMap.get es k ≡ some p → GoMap.get m.sessions k ≡ some p

-- What the range has done by its end, for the objects of the entries it visits.
record Cleaned (m : SessionManager) (es : GoMap Pointer) (m' : SessionManager) : Type 0 where
  valid : IsValid m'
  emptied :
      (k : Text)
      → GoMap.get m'.sessions k ≡ (if GoMap.has es k then none else GoMap.get m.sessions k)
  signalled :
      (k : Text) (p : Pointer) (s : Session)
      → GoMap.get es k ≡ some p
      → m.heap p ≡ some s
      → m'.heap p ≡ some (notified s (lit "shutdown"))
  untouched : (p : Pointer) → ((k : Text) → GoMap.get es k ≡ some p → ⊥) → m'.heap p ≡ m.heap p
  armed_kept : m.timers ≡ [] → (m'.timers ≡ []) × (m'.armed ≡ m.armed)
  shutdown_kept : m'.shutdown_chan ≡ m.shutdown_chan

-- One round of the range: `m'` is what the rest of the range makes of the cleaned manager.
module _ (m : SessionManager) (v : IsValid m) (key : Text) (p : Pointer) (s : Session)
    (es : GoMap Pointer) (m' : SessionManager) (here : GoMap.get m.sessions key ≡ some p)
    (there : m.heap p ≡ some s) (gone : GoMap.has es key ≡ false) (r : Remaining m es) where
  away :
      (k : Text) (q : Pointer)
      → GoMap.get es k ≡ some q
      → (GoMap.get (GoMap.remove m.sessions key) k ≡ some q) × ((p == q) ≡ false)
  away k q e =
      let kept : GoMap.get (GoMap.remove m.sessions key) k ≡ some q =
        ground (arith, get-remove m.sessions key k, beq_iff key k, r k q e) in
      (kept, (others m v key p s (lit "shutdown") here there k q kept).2)

  Cleaned-round :
      Cleaned (cleanup_session m key p s (lit "shutdown")) es m' → Cleaned m ((key, p) ∷ es) m'
  unfolding cleanup_session stop_timer GoMap.get
  Cleaned-round c = record {
    valid = c.valid;
    emptied = λ k. ground (arith, c.emptied k, get-remove m.sessions key k);
    signalled = λ k q t e f. elim (Bool-cases (beq key k)) [
      | inl same ↦
          let eq : q ≡ p = ground arith in
          let eq' : t ≡ s = ground arith in
          rw (eq, eq') (ground (arith, c.untouched p (λ k' e'. ground (arith, away k' p e'))))
      | inr other ↦ c.signalled k q t (ground arith) (ground (arith, away k q))
    ];
    untouched = λ q h. elim (Bool-cases (p == q)) [
      | inl same ↦ absurd (h key (ground (arith, beq_iff key key)))
      | inr other ↦ ground (arith, c.untouched q (λ k e. h k (ground (arith, beq_iff key k))))
    ];
    armed_kept = λ h.
        let c' : (m'.timers ≡ []) × (m'.armed ≡ stop_found (GoMap.get m.timers key) m.armed) =
          c.armed_kept (unfold GoMap.remove in rw h) in
        (c'.0, c'.1 ∙ (rw h));
    shutdown_kept = c.shutdown_kept;
  }

cleanup_all-Cleaned :
    (m : SessionManager) (es : GoMap Pointer)
    → IsValid m
    → GoMap.IsMap es
    → Remaining m es
    → Cleaned m es (cleanup_all m es)
unfolding cleanup_all GoMap.get
cleanup_all-Cleaned m [] v d r = record {
  valid = v;
  emptied = λ k. refl;
  signalled = λ k p s e f. cc;
  untouched = λ p h. refl;
  armed_kept = λ h. (h, refl);
  shutdown_kept = refl;
}
cleanup_all-Cleaned m ((key, p) ∷ es) v d r = elim (Option-cases (m.heap p)) [
  | inl e ↦ absurd (v.present key p (r key p (ground (arith, beq_iff key key))) e)
  | inr (s, e) ↦
      let here : GoMap.get m.sessions key ≡ some p = r key p (ground (arith, beq_iff key key)) in
      let later : Remaining m es = λ k q f. r k q (ground (arith, beq_iff key k)) in
      rw (e, cleanup_all)
        (Cleaned-round m v key p s es (cleanup_all (cleanup_session m key p s (lit "shutdown")) es)
          here e d.0 later
          (cleanup_all-Cleaned (cleanup_session m key p s (lit "shutdown")) es
            (cleanup-IsValid m v key p s (lit "shutdown") here e) d.1
            (λ k q f.
              unfold cleanup_session in
              (away m v key p s es (cleanup_all (cleanup_session m key p s (lit "shutdown")) es)
                here e d.0 later k q f).0)))
]

halted-IsValid : (m : SessionManager) → IsValid m → IsValid (halted m)
unfolding halted
halted-IsValid m v = record {
  no_doubles = v.no_doubles;
  unused = v.unused;
  present = v.present;
  sound = v.sound;
  live = v.live;
  bounded = v.bounded;
}

panicked-IsValid :
    (m : SessionManager) → IsValid m → IsValid (record m { shutdown_chan = panicked })
panicked-IsValid m v = record {
  no_doubles = v.no_doubles;
  unused = v.unused;
  present = v.present;
  sound = v.sound;
  live = v.live;
  bounded = v.bounded;
}

cleanup_halted-Cleaned :
    (m : SessionManager)
    → IsValid m
    → Cleaned (halted m) m.sessions (cleanup_all (halted m) m.sessions)
unfolding halted
cleanup_halted-Cleaned m v =
    cleanup_all-Cleaned (halted m) m.sessions (halted-IsValid m v) v.no_doubles (λ k p e. e)

shutdown-Cleaned :
    (m : SessionManager)
    → m.shutdown_chan ≡ opened
    → IsValid m
    → Cleaned (halted m) m.sessions (shutdown m)
unfolding shutdown
shutdown-Cleaned m first v = rw (first, shutdown) (cleanup_halted-Cleaned m v)

-- The first call cleans up, any other changes nothing but the signal.
pub shutdown_cases :
    (m : SessionManager)
    → (m.shutdown_chan ≡ opened) ⊎ (shutdown m ≡ record m { shutdown_chan = panicked })
unfolding shutdown
shutdown_cases m = elim (Signal-cases m.shutdown_chan) [
  | inl first ↦ inl first
  | inr (inl e) ↦ inr (rw (e, shutdown) refl)
  | inr (inr e) ↦ inr (rw (e, shutdown) refl)
]

pub shutdown_again :
    (m : SessionManager)
    → m.shutdown_chan ≡ closed
    → shutdown m ≡ record m { shutdown_chan = panicked }
unfolding shutdown
shutdown_again m e = rw (e, shutdown) refl

pub shutdown-IsValid : (m : SessionManager) → IsValid m → IsValid (shutdown m)
shutdown-IsValid m v = elim (shutdown_cases m) [
  | inl first ↦ (shutdown-Cleaned m first v).valid
  | inr again ↦ rw again (panicked-IsValid m v)
]

pub armed-shutdown :
    (m : SessionManager)
    → m.shutdown_chan ≡ opened
    → IsValid m
    → TimersValid m
    → ((shutdown m).timers ≡ []) × ((shutdown m).armed ≡ [])
armed-shutdown m first v t =
    let kept = (shutdown-Cleaned m first v).armed_kept (unfold halted in refl) in
    (kept.0, kept.1 ∙ (unfold halted in stop_all-Armed m.timers m.next_timer m.armed t.armed_valid))

pub chan-shutdown :
    (m : SessionManager)
    → m.shutdown_chan ≡ opened
    → IsValid m
    → (shutdown m).shutdown_chan ≡ closed
chan-shutdown m first v = (shutdown-Cleaned m first v).shutdown_kept ∙ (unfold halted in refl)

pub sessions-shutdown :
    (m : SessionManager)
    → m.shutdown_chan ≡ opened
    → IsValid m
    → (k : Text) → GoMap.get (shutdown m).sessions k ≡ none
unfolding halted
sessions-shutdown m first v k = ground (arith, (shutdown-Cleaned m first v).emptied k)

pub heap-shutdown :
    (m : SessionManager)
    → m.shutdown_chan ≡ opened
    → IsValid m
    → (k : Text) (p : Pointer) (s : Session) → GoMap.get m.sessions k ≡ some p
    → m.heap p ≡ some s
    → (shutdown m).heap p ≡ some (notified s (lit "shutdown"))
unfolding halted
heap-shutdown m first v k p s e f = (shutdown-Cleaned m first v).signalled k p s e f

pub shutdown-TimersValid :
    (m : SessionManager) → IsValid m → TimersValid m → TimersValid (shutdown m)
shutdown-TimersValid m v t = elim (shutdown_cases m) [
  | inl first ↦ record { armed_valid = rw (armed-shutdown m first v t).1 tt }
  | inr again ↦ rw again (record { armed_valid = t.armed_valid })
]
