-- ===== src/TokenBroker/Sessions/Timers.antt =====
-- The idle timers of session/manager.go: the map `timers` and the timers that the run time still has
-- to fire.
use kagenti_operator.Prelude.{
  ℕ, suc, ◌≤◌, ◌<◌, ◌≡◌, refl, Bool, true, false, ◌||◌, Text, beq, beq_iff, none, some,
  Option-cases, inl, inr, List, [], ◌∷◌, ◌==◌, arith, if◌then◌else◌,
}
use kagenti_operator.GoMap
use kagenti_operator.GoMap.{GoMap, get-put, get-remove}
use kagenti_operator.TokenBroker.Session.{Session, Pointer}
use kagenti_operator.TokenBroker.Sessions.{
  SessionManager, Timer, find_session, stop_armed, stop_found, stop_timer, stop_all,
  start_session_timer, cleanup_session,
}

-- Every armed timer is the one that the map has under its key. Newer timers stand first.
abbrev pub Armed : GoMap ℕ → ℕ → List Timer → Type 0
Armed timers n [] = Unit {0}
Armed timers n (t ∷ ts) = (t.id < n) × (GoMap.get timers t.key ≡ some t.id) × Armed timers t.id ts

pub record TimersValid (m : SessionManager) : Type 0 where
  pub armed_valid : Armed m.timers m.next_timer m.armed

-- The number of armed timers of a key.
unfoldable pub armed_for : Text → List Timer → ℕ
armed_for key [] = 0
armed_for key (t ∷ ts) = if beq t.key key then suc (armed_for key ts) else armed_for key ts

pub Armed-mono :
    (timers : GoMap ℕ) (n n' : ℕ) (ts : List Timer)
    → n ≤ n'
    → Armed timers n ts
    → Armed timers n' ts
Armed-mono timers n n' [] h a = tt
Armed-mono timers n n' (t ∷ ts) h a = (omega arith, a.1, a.2)

-- Stopping the timer of `key` lets the map forget it, or name another one for it.
Armed-stop :
    (timers timers' : GoMap ℕ) (key : Text) (i n : ℕ) (ts : List Timer)
    → GoMap.get timers key ≡ some i
    → ((k : Text) → beq key k ≡ false → GoMap.get timers' k ≡ GoMap.get timers k)
    → Armed timers n ts
    → Armed timers' n (stop_armed i ts)
unfolding stop_armed
Armed-stop timers timers' key i n [] e same a = tt
Armed-stop timers timers' key i n (t ∷ ts) e same a =
    let rest = Armed-stop timers timers' key i t.id ts e same a.2 in
    ground (arith, rest, Armed-mono timers' t.id n (stop_armed i ts), same t.key, beq_iff key t.key)

Armed-none :
    (timers timers' : GoMap ℕ) (key : Text) (n : ℕ) (ts : List Timer)
    → GoMap.get timers key ≡ none
    → ((k : Text) → beq key k ≡ false → GoMap.get timers' k ≡ GoMap.get timers k)
    → Armed timers n ts
    → Armed timers' n ts
Armed-none timers timers' key n [] e same a = tt
Armed-none timers timers' key n (t ∷ ts) e same a =
    ground (arith, Armed-none timers timers' key t.id ts e same a.2, same t.key, beq_iff key t.key)

pub Armed-stop_found :
    (timers timers' : GoMap ℕ) (key : Text) (n : ℕ) (ts : List Timer)
    → ((k : Text) → beq key k ≡ false → GoMap.get timers' k ≡ GoMap.get timers k)
    → Armed timers n ts
    → Armed timers' n (stop_found (GoMap.get timers key) ts)
Armed-stop_found timers timers' key n ts same a = elim (Option-cases (GoMap.get timers key)) [
  | inl e ↦ rw e (Armed-none timers timers' key n ts e same a)
  | inr (i, e) ↦ rw e (Armed-stop timers timers' key i n ts e same a)
]

-- The timers that the map does not name are not armed.
pub armed_for-none :
    (timers : GoMap ℕ) (key : Text) (n : ℕ) (ts : List Timer)
    → GoMap.get timers key ≡ none
    → Armed timers n ts
    → armed_for key ts ≡ 0
unfolding armed_for
armed_for-none timers key n [] e a = refl
armed_for-none timers key n (t ∷ ts) e a =
    ground (arith, armed_for-none timers key t.id ts e a.2, beq_iff t.key key)

armed_for-below :
    (timers : GoMap ℕ) (key : Text) (i n : ℕ) (ts : List Timer)
    → GoMap.get timers key ≡ some i
    → n ≤ i
    → Armed timers n ts
    → armed_for key ts ≡ 0
unfolding armed_for
armed_for-below timers key i n [] e h a = refl
armed_for-below timers key i n (t ∷ ts) e h a =
    ground (arith, armed_for-below timers key i t.id ts e, beq_iff t.key key)

pub armed_for-le :
    (timers : GoMap ℕ) (key : Text) (n : ℕ) (ts : List Timer)
    → Armed timers n ts
    → armed_for key ts ≤ 1
unfolding armed_for
armed_for-le timers key n [] a = omega arith
armed_for-le timers key n (t ∷ ts) a = ground (
  arith,
  armed_for-le timers key t.id ts a.2,
  armed_for-below timers key t.id t.id ts,
  beq_iff t.key key,
)

armed_for-stop :
    (timers : GoMap ℕ) (key : Text) (i n : ℕ) (ts : List Timer)
    → GoMap.get timers key ≡ some i
    → Armed timers n ts
    → armed_for key (stop_armed i ts) ≡ 0
unfolding armed_for stop_armed
armed_for-stop timers key i n [] e a = refl
armed_for-stop timers key i n (t ∷ ts) e a =
    ground (arith, armed_for-stop timers key i t.id ts e a.2, beq_iff t.key key)

pub armed_for-stop_found :
    (timers : GoMap ℕ) (key : Text) (n : ℕ) (ts : List Timer)
    → Armed timers n ts
    → armed_for key (stop_found (GoMap.get timers key) ts) ≡ 0
armed_for-stop_found timers key n ts a = elim (Option-cases (GoMap.get timers key)) [
  | inl e ↦ rw e (armed_for-none timers key n ts e a)
  | inr (i, e) ↦ rw e (armed_for-stop timers key i n ts e a)
]

-- Whether a range over the timers of the map stops the timer with this id.
covers : GoMap ℕ → ℕ → Bool
covers [] j = false
covers ((k, i) ∷ m) j = j == i || covers m j

AllCovered : GoMap ℕ → List Timer → Type 0
AllCovered m [] = Unit {0}
AllCovered m (t ∷ ts) = (covers m t.id ≡ true) × AllCovered m ts

covers_of_get : (m : GoMap ℕ) (k : Text) (i : ℕ) → GoMap.get m k ≡ some i → covers m i ≡ true
unfolding covers GoMap.get
covers_of_get [] k i e = cc
covers_of_get ((k', j) ∷ m) k i e = ground (arith, covers_of_get m k i)

AllCovered-of_Armed :
    (timers : GoMap ℕ) (n : ℕ) (ts : List Timer) → Armed timers n ts → AllCovered timers ts
unfolding AllCovered
AllCovered-of_Armed timers n [] a = tt
AllCovered-of_Armed timers n (t ∷ ts) a =
    (covers_of_get timers t.key t.id a.1, AllCovered-of_Armed timers t.id ts a.2)

AllCovered-stop :
    (m : GoMap ℕ) (k : Text) (i : ℕ) (ts : List Timer)
    → AllCovered ((k, i) ∷ m) ts
    → AllCovered m (stop_armed i ts)
unfolding AllCovered covers stop_armed
AllCovered-stop m k i [] a = tt
AllCovered-stop m k i (t ∷ ts) a = ground (arith, AllCovered-stop m k i ts a.1)

stop_all-covered : (m : GoMap ℕ) (ts : List Timer) → AllCovered m ts → stop_all m ts ≡ []
unfolding stop_all AllCovered
stop_all-covered [] [] a = refl
stop_all-covered [] (t ∷ ts) a = absurd (unfold covers in ground (arith, a.0))
stop_all-covered ((k, i) ∷ m) ts a =
    stop_all-covered m (stop_armed i ts) (AllCovered-stop m k i ts a)

-- The range of `Shutdown` stops every timer.
pub stop_all-Armed :
    (timers : GoMap ℕ) (n : ℕ) (ts : List Timer) → Armed timers n ts → stop_all timers ts ≡ []
stop_all-Armed timers n ts a = stop_all-covered timers ts (AllCovered-of_Armed timers n ts a)

pub stop_timer-TimersValid :
    (m : SessionManager) (key : Text) → TimersValid m → TimersValid (stop_timer m key)
unfolding stop_timer
stop_timer-TimersValid m key v = record {
  armed_valid =
      Armed-stop_found m.timers (GoMap.remove m.timers key) key m.next_timer m.armed
        (λ k h. ground (arith, get-remove m.timers key k)) v.armed_valid;
}

pub cleanup-TimersValid :
    (m : SessionManager) (key : Text) (p : Pointer) (s : Session) (reason : Text)
    → TimersValid m
    → TimersValid (cleanup_session m key p s reason)
unfolding cleanup_session
cleanup-TimersValid m key p s reason v = record {
  armed_valid = (stop_timer-TimersValid m key v).armed_valid;
}

pub start-TimersValid :
    (m : SessionManager) (now : ℕ) (key : Text)
    → TimersValid m
    → TimersValid (start_session_timer m now key)
unfolding start_session_timer
start-TimersValid m now key v = elim (Option-cases (find_session m key)) [
  | inl e ↦ rw (e, start_session_timer) v
  | inr ((p, s), e) ↦
      rw (e, start_session_timer)
        (record {
          armed_valid = (
            omega arith,
            ground (arith, get-put m.timers key m.next_timer key, beq_iff key key),
            Armed-stop_found m.timers (GoMap.put m.timers key m.next_timer) key m.next_timer m.armed
                (λ k h. ground (arith, get-put m.timers key m.next_timer k)) v.armed_valid,
          );
        })
]
