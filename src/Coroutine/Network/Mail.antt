-- ===== src/Coroutine/Network/Mail.antt =====
-- A message to another process, and an event for one.
use boost_coro.Base.{
  ℕ, ◌==◌, ◌≡◌, ◌≢◌, refl, ap, ◌∙◌, ◌⊎◌, inl, inr, Bool-cases, ==_iff, subst, none, some, ok, fault,
  dangling, List, [], ◌∷◌, ◌++◌, All, arith,
}
use boost_coro.Coroutine.State.{Address, Frame, Coroutine, World, store}
use boost_coro.Coroutine.Machine.{coro_context}
use boost_coro.Coroutine.Network.{
  Action, Waiting, no_event, Process, update, given, released, Stands, in_front, blocked, woken,
  awaiting, Here, Apart, addresses,
}

-- The flags of a process
pub msg_cases :
    {k : Address} {s : List Action} {b : Waiting} {mail : List ℕ} {stat evet msg : ℕ}
    {fs : List Frame}
    → Stands k s b mail stat evet msg fs
    → (msg ≡ 0) ⊎ (msg ≡ 1)
msg_cases (in_front h) = inl refl
msg_cases blocked = inr refl
msg_cases woken = inl refl
msg_cases awaiting = inl refl

pub evet_cases :
    {k : Address} {s : List Action} {b : Waiting} {mail : List ℕ} {stat evet msg : ℕ}
    {fs : List Frame}
    → Stands k s b mail stat evet msg fs
    → (evet ≡ 0) ⊎ (evet ≡ 1)
evet_cases (in_front h) = inl refl
evet_cases blocked = inl refl
evet_cases woken = inl refl
evet_cases awaiting = inr refl

-- Where it stands when a message has come, and when an event has.
mail_comes :
    {k : Address} {s : List Action} {b : Waiting} {mail : List ℕ} {stat evet msg : ℕ}
    {fs : List Frame} (m : ℕ)
    → Stands k s b mail stat evet msg fs
    → Stands k s b (mail ++ m ∷ []) stat evet 0 fs
mail_comes m (in_front h) = in_front h
mail_comes m blocked = woken
mail_comes m woken = woken
mail_comes m awaiting = awaiting

event_comes :
    {k : Address} {s : List Action} {b : Waiting} {mail : List ℕ} {stat evet msg : ℕ}
    {fs : List Frame}
    → Stands k s b mail stat evet msg fs
    → Stands k s (no_event b) mail stat 0 msg fs
event_comes (in_front h) = in_front h
event_comes blocked = blocked
event_comes woken = woken
event_comes awaiting = in_front (inr refl)

abbrev pub with_mail : ℕ → Coroutine → Coroutine
with_mail m d = record d { msg = 0; messages = d.messages ++ m ∷ [] }

abbrev pub with_event : Coroutine → Coroutine
with_event d = record d { evet = 0 }

-- The same object in another world
pub Here-at :
    {w : World} {p : Process} (v : World)
    → Here w p
    → v.heap p.address ≡ w.heap p.address
    → Here v p
Here-at v h e = record {
  object = h.object;
  frames = h.frames;
  here = e ∙ h.here;
  childs = h.childs;
  parent = h.parent;
  messages = h.messages;
  received = h.received;
  context = h.context;
  stands = h.stands;
}

pub Here-kept :
    (P : Address → Type 0) (w v : World) (q : List Process)
    → ((i : Address) → P i → v.heap i ≡ w.heap i)
    → All (λ (p : Process). P p.address) q
    → All (Here w) q
    → All (Here v) q
Here-kept P w v [] same a b = tt
Here-kept P w v (p ∷ q) same (a, c) (b, d) =
    (Here-at v b (same p.address a), Here-kept P w v q same c d)

pub Here-same :
    (w v : World) (q : List Process)
    → ((i : Address) → v.heap i ≡ w.heap i)
    → All (Here w) q
    → All (Here v) q
Here-same w v [] same a = tt
Here-same w v (p ∷ q) same (a, b) = (Here-at v a (same p.address), Here-same w v q same b)

-- A change of a process that is one of its object, whoever it is
pub record Change (f : Process → Process) (g : Coroutine → Coroutine) : Type 0 where
  pub address : (p : Process) → (f p).address ≡ p.address
  pub here :
      (p : Process) (w : World) (b : Here w p) → Here (store p.address (some (g b.object)) w) (f p)

pub mail-Change : (m : ℕ) → Change (given m) (with_mail m)
unfolding store coro_context
mail-Change m = record {
  address = λ p. refl;
  here = λ p w b. record {
    object = with_mail m b.object;
    frames = b.frames;
    here = ground arith;
    childs = b.childs;
    parent = b.parent;
    messages = ap (λ l. l ++ m ∷ []) b.messages;
    received = b.received;
    context = b.context;
    stands = mail_comes m b.stands;
  };
}

pub event-Change : Change released with_event
unfolding store coro_context
event-Change = record {
  address = λ p. refl;
  here = λ p w b. record {
    object = with_event b.object;
    frames = b.frames;
    here = ground arith;
    childs = b.childs;
    parent = b.parent;
    messages = b.messages;
    received = b.received;
    context = b.context;
    stands = event_comes b.stands;
  };
}

-- What comes of a change of the process at `j`.
pub data Comes (f : Process → Process) (g : Coroutine → Coroutine) (j : Address) (q : List Process)
    (w : World) : Type 0 where
  changed :
      (l : List Process) (d : Coroutine)
      → update f j q ≡ ok l
      → w.heap j ≡ some d
      → d.parent ≡ none
      → (d.evet ≡ 0) ⊎ (d.evet ≡ 1)
      → (d.msg ≡ 0) ⊎ (d.msg ≡ 1)
      → addresses l ≡ addresses q
      → All (Here (store j (some (g d)) w)) l
      → Comes f g j q w
  nobody : update f j q ≡ fault dangling → All (λ (p : Process). p.address ≢ j) q → Comes f g j q w

module _ (f : Process → Process) (g : Coroutine → Coroutine) (c : Change f g) where
  put_before :
      (j : Address) (p : Process) (q : List Process) (w : World)
      → Here w p
      → p.address ≢ j
      → Comes f g j q w
      → Comes f g j (p ∷ q) w
  unfolding update store
  put_before j p q w b o (changed l d e h u x y s al) =
      changed (p ∷ l) d (ground (arith, e)) h u x y (ap (λ x. p.address ∷ x) s)
        (Here-at _ b (ground arith), al)
  put_before j p q w b o (nobody e h) = nobody (ground (arith, e)) (o, h)

  first_takes :
      (p : Process) (q : List Process) (w : World)
      → Here w p
      → All (λ (i : Process). i.address ≢ p.address) q
      → All (Here w) q
      → Comes f g p.address (p ∷ q) w
  unfolding update store
  first_takes p q w b a h =
      changed (f p ∷ q) b.object (ground arith) b.here b.parent (evet_cases b.stands)
        (msg_cases b.stands) (ap (λ i. i ∷ addresses q) (c.address p))
        (c.here p w b, Here-kept (λ i. i ≢ p.address) w _ q (λ i o. ground arith) a h)

  pub change-Comes :
      (j : Address) (q : List Process) (w : World) → All (Here w) q → Apart q → Comes f g j q w
  unfolding update
  change-Comes j [] w h a = nobody refl tt
  change-Comes j (p ∷ q) w (b, h) (a, as') = elim (Bool-cases (p.address == j)) [
    | inl e ↦
        subst (λ i. Comes f g i (p ∷ q) w) ((==_iff p.address j).0 e) (first_takes p q w b a h)
    | inr e ↦ put_before j p q w b (ground (arith, e)) (change-Comes j q w h as')
  ]
