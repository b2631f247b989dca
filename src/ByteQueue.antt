-- ===== src/ByteQueue.antt =====
-- What a byte buffer promises to the sockets and the messages: a queue of bytes. The buffer of
-- boost/coroutine/util/var_buf.h keeps that promise.
pub mod Pages
pub mod Examples
use boost_coro.Base.{ℕ, ◌≡◌, refl, List, [], ◌∷◌, ◌++◌, length, take, drop, Outcome, ok, ◌>>=◌}

-- The calls: write, read, assign, reserve, to_string and length
pub data Call : Type 0 where
  put replace : List ℕ → Call
  get room : ℕ → Call
  peek count : Call

pub data Answer : Type 0 where
  nothing : Answer
  number : ℕ → Answer
  bytes : List ℕ → Answer
  bytes_and : List ℕ → ℕ → Answer

-- What a call answers, and which bytes it leaves, when these are the bytes in the queue. A read gives
-- the bytes that there are, and answers the number it was asked for, whatever there are.
abbrev pub expected : Call → List ℕ → Answer × List ℕ
expected (put s) q = (number (length s), q ++ s)
expected (replace s) q = (number (length s), s)
expected (get n) q = (bytes_and (take n q) n, drop n q)
expected (room n) q = (nothing, q)
expected peek q = (bytes q, q)
expected count q = (number (length q), q)

abbrev pub more : Answer → List Answer × List ℕ → List Answer × List ℕ
more a (answers, q) = (a ∷ answers, q)

abbrev pub expected_all : List Call → List ℕ → List Answer × List ℕ
expected_all [] q = ([], q)
expected_all (c ∷ cs) q = more (expected c q).0 (expected_all cs (expected c q).1)

-- An implementation, and what makes it one: its good states hold bytes, and each call in a good state
-- returns, answers as expected, and leaves a good state.
pub record ByteQueue (State : Type 0) : Type 1 where
  pub perform : Call → State → Outcome (Answer × State)
  pub Good : State → Type 0
  pub held : State → List ℕ
  pub perform_lem :
      (c : Call) (s : State)
      → Good s
      → (t : State) × (perform c s ≡ ok ((expected c (held s)).0, t))
        × Good t
        × (held t ≡ (expected c (held s)).1)

module _ {State : Type 0} (queue : ByteQueue State) where
  unfoldable pub perform_all : List Call → State → Outcome (List Answer × State)
  perform_all [] s = ok ([], s)
  perform_all (c ∷ cs) s =
      queue.perform c s >>= λ r. perform_all cs r.1 >>= λ q. ok (r.0 ∷ q.0, q.1)

  -- Any number of calls in a good state returns, answers as expected, and leaves a good state that holds
  -- the expected bytes.
  pub perform_all-expected_all :
      (cs : List Call) (s : State)
      → queue.Good s
      → (t : State) × (perform_all cs s ≡ ok ((expected_all cs (queue.held s)).0, t))
        × queue.Good t
        × (queue.held t ≡ (expected_all cs (queue.held s)).1)
  unfolding perform_all
  perform_all-expected_all [] s good = (s, refl, good, refl)
  perform_all-expected_all (c ∷ cs) s good =
      let (t, e, good1, h) = queue.perform_lem c s good in
      let (u, f, good2, k) = perform_all-expected_all cs t good1 in
      (u, rw (e, f, h), good2, rw (k, h))
