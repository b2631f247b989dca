-- ===== src/Coroutine/Network/Settles.antt =====
-- Every network comes to an end: no process is left, a message or an event is for one that is gone,
-- or all wait.
use mathlib.Core.List.{append_assoc, append-nil}
use boost_coro.Base.{
  ℕ, zero, suc, ◌+◌, ◌≤◌, ◌==◌, ◌≡◌, refl, ◌∙◌, ap, subst, ◌⊎◌, inl, inr, Bool-cases, Outcome, ok,
  fault, dangling, ◌>>=◌, List, [], ◌∷◌, ◌++◌, All, All-append, length, arith,
}
use boost_coro.Coroutine.State.{Address}
use boost_coro.Coroutine.Network.{
  Action, give_way, receive, await, fire, send, Waiting, nothing, message, event, no_event, Process,
  given, released, update, run, turn_of, turn, turns,
}

-- The process waits for a message, and there is none, or for an event.
pub data Stuck (p : Process) : Type 0 where
  no_message :
      (s : List Action) → p.script ≡ receive ∷ s → p.waits ≡ message → p.mail ≡ [] → Stuck p
  no_event_yet : p.waits ≡ event → Stuck p

-- What a network can end with
pub data Settles (q : List Process) : Type 0 where
  ended : (n : ℕ) → turns n q ≡ ok [] → Settles q
  crashed : (n : ℕ) → turns n q ≡ fault dangling → Settles q
  deadlocked :
      (n : ℕ) (p : Process) (r : List Process)
      → turns n q ≡ ok (p ∷ r)
      → All Stuck (p ∷ r)
      → Settles q

abbrev slack : Waiting → ℕ
slack nothing = 1
slack message = 0
slack event = 0

-- How much a process has to do before it has ended, or is at its next action and waits
abbrev left_of : Process → ℕ
left_of p = length p.script + length p.script + length p.script + slack p.waits

abbrev work : List Process → ℕ
work [] = 0
work (p ∷ q) = suc (left_of p + work q)

work-append : (q r : List Process) → work (q ++ r) ≡ work q + work r
work-append [] r = omega arith
work-append (p ∷ q) r = omega (arith, work-append q r)

-- At most `b` is left to do, or a message had no receiver.
data AtMost (b : ℕ) : Outcome (List Process) → Type 0 where
  less : {q : List Process} → work q ≤ b → AtMost b (ok q)
  lost : AtMost b (fault dangling)

weaker : {b c : ℕ} {o : Outcome (List Process)} → b ≤ c → AtMost b o → AtMost c o
weaker e (less f) = less (omega (arith, e, f))
weaker e lost = lost

data Updated (q : List Process) : Outcome (List Process) → Type 0 where
  there : {l : List Process} → work l ≤ suc (work q) → Updated q (ok l)
  unknown : Updated q (fault dangling)

behind :
    (p : Process) (q : List Process) (o : Outcome (List Process))
    → Updated q o
    → Updated (p ∷ q) (o >>= λ l. ok (p ∷ l))
behind p q _ (there e) = there (omega (arith, e))
behind p q _ unknown = unknown

update-Updated :
    (f : Process → Process) (j : Address) (q : List Process)
    → ((p : Process) → left_of (f p) ≤ suc (left_of p))
    → Updated q (update f j q)
unfolding update
update-Updated f j [] h = unknown
update-Updated f j (p ∷ q) h = elim (Bool-cases (p.address == j)) [
  | inl e ↦ rw e (there (omega (arith, h p)))
  | inr e ↦ rw e (behind p q _ (update-Updated f j q h))
]

updated_on :
    (b : ℕ) (f : List Process → Outcome (List Process)) (q : List Process)
    (o : Outcome (List Process))
    → Updated q o
    → ((l : List Process) → work l ≤ suc (work q) → AtMost b (f l))
    → AtMost b (o >>= f)
updated_on b f q _ (there {l} e) next = next l e
updated_on b f q _ unknown next = lost

-- What is left when these actions are, and the process waits for nothing
abbrev bound : List Action → List Process → ℕ
bound s q = suc (suc (length s + length s + length s + work q))

released_slack : (b : Waiting) → slack (no_event b) ≤ suc (slack b)
released_slack nothing = omega arith
released_slack message = omega arith
released_slack event = omega arith

-- A message or an event for another process adds one at most.
change_on :
    (f : Process → Process) (j k : Address) (s : List Action) (mail got : List ℕ) (q : List Process)
    → ((p : Process) → left_of (f p) ≤ suc (left_of p))
    → ((r : List Process) → AtMost (bound s r) (run k s mail got r))
    → AtMost (suc (bound s q)) (update f j q >>= run k s mail got)
change_on f j k s mail got q h next =
    updated_on _ _ q _ (update-Updated f j q h) λ l e. weaker (omega (arith, e)) (next l)

send_on :
    (k : Address) (s : List Action) (j m : ℕ) (mail got : List ℕ) (q : List Process)
    → ((l : List ℕ) (r : List Process) → AtMost (bound s r) (run k s l got r))
    → AtMost (suc (bound s q)) (run k (send j m ∷ s) mail got q)
unfolding run
send_on k s j m mail got q next = elim (Bool-cases (k == j)) [
  | inl e ↦ rw e (weaker (omega arith) (next (mail ++ m ∷ []) q))
  | inr e ↦ rw e (change_on (given m) j k s mail got q (λ p. omega arith) λ r. next mail r)
]

fire_on :
    (k : Address) (s : List Action) (j : Address) (mail got : List ℕ) (q : List Process)
    → ((r : List Process) → AtMost (bound s r) (run k s mail got r))
    → AtMost (suc (bound s q)) (run k (fire j ∷ s) mail got q)
unfolding run
fire_on k s j mail got q next = elim (Bool-cases (k == j)) [
  | inl e ↦ rw e (weaker (omega arith) (next q))
  | inr e ↦
      rw e (change_on released j k s mail got q (λ p. omega (arith, released_slack p.waits)) next)
]

run-AtMost :
    (k : Address) (s : List Action) (mail got : List ℕ) (q : List Process)
    → AtMost (bound s q) (run k s mail got q)
unfolding run
run-AtMost k [] mail got q = less (omega arith)
run-AtMost k (give_way ∷ s) mail got q = less (omega (arith, work-append q _))
run-AtMost k (await ∷ s) mail got q = less (omega (arith, work-append q _))
run-AtMost k (receive ∷ s) [] got q = less (omega (arith, work-append q _))
run-AtMost k (receive ∷ s) (m ∷ mail) got q = weaker (omega arith) (run-AtMost k s mail (m ∷ got) q)
run-AtMost k (send j m ∷ s) mail got q =
    weaker (omega arith) (send_on k s j m mail got q λ l r. run-AtMost k s l got r)
run-AtMost k (fire j ∷ s) mail got q =
    weaker (omega arith) (fire_on k s j mail got q λ r. run-AtMost k s mail got r)

-- A run leaves less to do, or the process waits for a message that has not come.
run_cases :
    (p : Process) (q : List Process) (s : List Action) (mail : List ℕ)
    → p.script ≡ s
    → p.mail ≡ mail
    → (p.waits ≡ nothing) ⊎ (p.waits ≡ message)
    → Stuck p ⊎ AtMost (left_of p + work q) (run p.address p.script p.mail p.received q)
unfolding run
run_cases p q [] mail e f g = rw e (inr (less (omega arith)))
run_cases p q (give_way ∷ s) mail e f g = rw e (inr (less (omega (arith, work-append q _))))
run_cases p q (await ∷ s) mail e f g = rw e (inr (less (omega (arith, work-append q _))))
run_cases p q (receive ∷ s) [] e f (inl g) =
    rw (e, f, g) (inr (less (omega (arith, work-append q _))))
run_cases p q (receive ∷ s) [] e f (inr g) = inl (no_message s e g f)
run_cases p q (receive ∷ s) (m ∷ mail) e f g =
    rw (e, f) (inr (weaker (omega arith) (run-AtMost p.address s mail (m ∷ p.received) q)))
run_cases p q (send j m ∷ s) mail e f g = rw e (
    inr (
      weaker (omega arith)
        (send_on p.address s j m p.mail p.received q λ l r. run-AtMost p.address s l p.received r)))
run_cases p q (fire j ∷ s) mail e f g = rw e (
    inr (
      weaker (omega arith) (
        fire_on p.address s j p.mail p.received q λ r. run-AtMost p.address s p.mail p.received r)))

turn_cases :
    (p : Process) (q : List Process) (b : Waiting)
    → p.waits ≡ b
    → Stuck p ⊎ AtMost (left_of p + work q) (turn_of b p q)
unfolding turn_of
turn_cases p q event e = inl (no_event_yet e)
turn_cases p q nothing e = run_cases p q p.script p.mail refl refl (inl e)
turn_cases p q message e = run_cases p q p.script p.mail refl refl (inr e)

Stuck-turn : (p : Process) (q : List Process) → Stuck p → turn (p ∷ q) ≡ ok (q ++ p ∷ [])
unfolding turn turn_of run
Stuck-turn p q (no_message s e f g) = rw (f, e, g) (ground (arith, e, f, g))
Stuck-turn p q (no_event_yet e) = rw e refl

settles_next : (q r : List Process) → turn q ≡ ok r → Settles r → Settles q
unfolding turns
settles_next q r e (ended n f) = ended (suc n) (rw e f)
settles_next q r e (crashed n f) = crashed (suc n) (rw e f)
settles_next q r e (deadlocked n p l f a) = deadlocked (suc n) p l (rw e f) a

settles_less :
    (q : List Process) (b : ℕ) (o : Outcome (List Process))
    → turn q ≡ o
    → AtMost b o
    → ((r : List Process) → work r ≤ b → Settles r)
    → Settles q
unfolding turns
settles_less q b _ e (less {q = r} f) next = settles_next q r e (next r f)
settles_less q b _ e lost next = crashed 1 (rw e refl)

-- The processes of `r` wait; those of `q` have their turns before them.
settle : (b : ℕ) (q r : List Process) → All Stuck r → work (q ++ r) ≤ b → Settles (q ++ r)
unfolding turns turn
settle b [] [] a e = ended 0 refl
settle b [] (p ∷ r) a e = deadlocked 0 p r refl a
settle zero (p ∷ q) r a e = absurd (omega (arith, e))
settle (suc b) (p ∷ q) r a e = elim (turn_cases p (q ++ r) p.waits refl) [
  | inl s ↦
      let goes : turn (p ∷ q ++ r) ≡ ok (q ++ (r ++ p ∷ [])) =
        Stuck-turn p (q ++ r) s ∙ ap ok (append_assoc q r (p ∷ [])) in
      settles_next _ _ goes (
        settle (suc b) q (r ++ p ∷ []) (All-append _ r _ a (s, tt))
          (omega (arith, e, work-append q (r ++ p ∷ []), work-append r (p ∷ []), work-append q r)))
  | inr f ↦
      settles_less (p ∷ q ++ r) (left_of p + work (q ++ r)) _ refl f
        λ l g. subst Settles (append-nil l) (settle b l [] tt (ground (arith, g, e, append-nil l)))
]

-- Every network ends after some number of turns: no process is left, a message or an event is for
-- one that is not there, or there are processes left and all of them wait for a message or an event
-- that nobody can send.
pub settles : (q : List Process) → Settles q
settles q = subst Settles (append-nil q) (settle (work (q ++ [])) q [] tt (omega arith))
