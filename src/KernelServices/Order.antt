-- ===== src/KernelServices/Order.antt =====
-- The order and the bounds of the message queues.
use ps5x_windows.Base.{
  ℕ, suc, ◌≤◌, ◌<◌, ◌≡◌, refl, some, List, [], ◌∷◌, String, ltb, ◌==◌, length, take, All, lookup,
  insert, erase, arith, Bool-cases, Option-cases, inl, inr, ltb→lt, length-take, ◌⊎◌, ◌⊎◌,
}
use ps5x_windows.KernelServices.State.{MsgEntry, MqEntry, SvcState, init}
use ps5x_windows.KernelServices.Queue.{insert_msg, queue_send, queue_recv}
use ps5x_windows.KernelServices.Services.{create_mq, close_mq, send_msg, recv_msg}

abbrev pub IsBelow : ℕ → MsgEntry → Type 0
IsBelow p m = m.priority ≤ p

-- The highest priority is in front.
abbrev pub IsSorted : List MsgEntry → Type 0
IsSorted [] = Unit
IsSorted (m ∷ ms) = All (IsBelow m.priority) ms × IsSorted ms

abbrev pub FitsIn : ℕ → MsgEntry → Type 0
FitsIn size m = length m.payload ≤ size

-- A queue in order and within its attributes.
pub record IsQueue (q : MqEntry) : Type 0 where
  pub sorted : IsSorted q.msgs
  pub within : length q.msgs ≤ q.max_messages
  pub fits : All (FitsIn q.max_msg_size) q.msgs

weaken-All : (p r : ℕ) (ms : List MsgEntry) → p ≤ r → All (IsBelow p) ms → All (IsBelow r) ms
weaken-All p r [] h v = tt
weaken-All p r (m ∷ ms) h v = (omega (arith, v.0), weaken-All p r ms h v.1)

insert_msg-All {κ} :
    (P : MsgEntry → Type κ) (m : MsgEntry) (ms : List MsgEntry)
    → P m
    → All P ms
    → All P (insert_msg m ms)
unfolding insert_msg
insert_msg-All P m [] h v = (h, tt)
insert_msg-All P m (x ∷ xs) h v = elim (Bool-cases (ltb m.priority x.priority)) [
  | inl above ↦ rw above (v.0, insert_msg-All P m xs h v.1)
  | inr first ↦ rw first (h, v)
]

insert_msg-IsSorted : (m : MsgEntry) (ms : List MsgEntry) → IsSorted ms → IsSorted (insert_msg m ms)
unfolding insert_msg
insert_msg-IsSorted m [] v = (tt, tt)
insert_msg-IsSorted m (x ∷ xs) v = elim (Bool-cases (ltb m.priority x.priority)) [
  | inl above ↦
      let lt = ltb→lt m.priority x.priority above in
      rw above (
        insert_msg-All (IsBelow x.priority) m xs (omega (arith, lt)) v.0,
        insert_msg-IsSorted m xs v.1,
      )
  | inr first ↦
      let le : x.priority ≤ m.priority = ground arith in
      rw first ((le, weaken-All x.priority m.priority xs le v.0), v)
]

length-insert_msg : (m : MsgEntry) (ms : List MsgEntry) → length (insert_msg m ms) ≡ suc (length ms)
unfolding insert_msg
length-insert_msg m [] = refl
length-insert_msg m (x ∷ xs) = ground (arith, length-insert_msg m xs)

queue_send-IsQueue :
    (q : MqEntry) (payload : List ℕ) (priority : ℕ)
    → length q.msgs < q.max_messages
    → IsQueue q
    → IsQueue (queue_send q payload priority)
unfolding queue_send
queue_send-IsQueue q payload priority room v =
    let m : MsgEntry = record { payload = take q.max_msg_size payload; priority = priority } in
    record {
      sorted = insert_msg-IsSorted m q.msgs v.sorted;
      within = omega (arith, length-insert_msg m q.msgs);
      fits =
          insert_msg-All (FitsIn q.max_msg_size) m q.msgs
            (omega (arith, length-take q.max_msg_size payload)) v.fits;
    }

-- What RecvMsg leaves of a queue.
rest_of_queue : MqEntry → List MsgEntry → MqEntry
rest_of_queue q ms = record q { msgs = ms }

rest_of_queue-IsQueue :
    (q : MqEntry) (m : MsgEntry) (ms : List MsgEntry)
    → q.msgs ≡ m ∷ ms
    → IsQueue q
    → IsQueue (rest_of_queue q ms)
unfolding rest_of_queue
rest_of_queue-IsQueue q m ms e v =
    let sorted : IsSorted (m ∷ ms) = rw e at v.sorted in
    let within : length (m ∷ ms) ≤ q.max_messages = rw e at v.within in
    let fits : All (FitsIn q.max_msg_size) (m ∷ ms) = rw e at v.fits in
    record { sorted = sorted.1; within = omega (arith, within); fits = fits.1 }

-- The tables of queues.
abbrev pub AreQueues : List (ℕ × MqEntry) → Type 0
AreQueues mqs = All (λ x. IsQueue x.1) mqs

insert-AreQueues :
    (h : ℕ) (q : MqEntry) (mqs : List (ℕ × MqEntry))
    → IsQueue q
    → AreQueues mqs
    → AreQueues (insert h q mqs)
insert-AreQueues h q [] v all = (v, tt)
insert-AreQueues h q ((j, r) ∷ mqs) v all = elim (Bool-cases (j == h)) [
  | inl same ↦ rw same (v, all.1)
  | inr other ↦ rw other (all.0, insert-AreQueues h q mqs v all.1)
]

erase-AreQueues : (h : ℕ) (mqs : List (ℕ × MqEntry)) → AreQueues mqs → AreQueues (erase h mqs)
erase-AreQueues h [] all = tt
erase-AreQueues h ((j, r) ∷ mqs) all = elim (Bool-cases (j == h)) [
  | inl same ↦ rw same (erase-AreQueues h mqs all.1)
  | inr other ↦ rw other (all.0, erase-AreQueues h mqs all.1)
]

lookup-AreQueues :
    (h : ℕ) (q : MqEntry) (mqs : List (ℕ × MqEntry))
    → lookup h mqs ≡ some q
    → AreQueues mqs
    → IsQueue q
lookup-AreQueues h q [] e all = cc
lookup-AreQueues h q ((j, r) ∷ mqs) e all = elim (Bool-cases (j == h)) [
  | inl same ↦
      let found : some r ≡ some q = rw same at e in let eq : r ≡ q = cc in rw (← eq) (all.0)
  | inr other ↦ lookup-AreQueues h q mqs (rw other at e) all.1
]

-- The calls on message queues; a send or a receive stands where its wait is over.
pub data MqCall : Type 0 where
  creates : String → (max_messages max_msg_size : ℕ) → MqCall
  closes : ℕ → MqCall
  sends : ℕ → List ℕ → ℕ → MqCall
  receives : ℕ → ℕ → MqCall

unfoldable pub call : SvcState → MqCall → SvcState
call s (creates name max_messages size) = (create_mq s name max_messages size).1
call s (closes h) = (close_mq s h).1
call s (sends h payload priority) = (send_msg s h payload priority).1
call s (receives h buf_size) = (recv_msg s h buf_size).1

unfoldable pub calls : SvcState → List MqCall → SvcState
calls s [] = s
calls s (c ∷ cs) = calls (call s c) cs

send_msg-AreQueues :
    (s : SvcState) (h : ℕ) (payload : List ℕ) (priority : ℕ)
    → AreQueues s.mqs
    → AreQueues (send_msg s h payload priority).1.mqs
unfolding send_msg
send_msg-AreQueues s h payload priority all = elim (Option-cases (lookup h s.mqs)) [
  | inl e ↦ rw (e, send_msg) all
  | inr (q, e) ↦ elim (Bool-cases (ltb (length q.msgs) q.max_messages)) [
    | inr full ↦ rw (e, full, send_msg) all
    | inl room ↦
        let v = lookup-AreQueues h q s.mqs e all in
        rw (e, room, send_msg)
          (insert-AreQueues h _ s.mqs (queue_send-IsQueue q payload priority (ltb→lt _ _ room) v)
            all)
  ]
]

List-cases :
    (ms : List MsgEntry) → (ms ≡ []) ⊎ ((m : MsgEntry) × (rest : List MsgEntry) × (ms ≡ m ∷ rest))
List-cases [] = inl refl
List-cases (m ∷ rest) = inr (m, rest, refl)

recv_msg-AreQueues :
    (s : SvcState) (h buf_size : ℕ) → AreQueues s.mqs → AreQueues (recv_msg s h buf_size).1.mqs
unfolding recv_msg queue_recv rest_of_queue
recv_msg-AreQueues s h buf_size all = elim (Option-cases (lookup h s.mqs)) [
  | inl e ↦ rw (e, recv_msg) all
  | inr (q, e) ↦ elim (List-cases q.msgs) [
    | inl none_left ↦ rw (e, recv_msg, none_left) all
    | inr (m, ms, front) ↦
        let v = lookup-AreQueues h q s.mqs e all in
        rw (e, recv_msg, front)
          (insert-AreQueues h _ s.mqs (rest_of_queue-IsQueue q m ms front v) all)
  ]
]

close_mq-AreQueues : (s : SvcState) (h : ℕ) → AreQueues s.mqs → AreQueues (close_mq s h).1.mqs
unfolding close_mq
close_mq-AreQueues s h all = elim (Option-cases (lookup h s.mqs)) [
  | inl e ↦ rw (e, close_mq) all
  | inr (q, e) ↦ rw (e, close_mq) (erase-AreQueues h s.mqs all)
]

call-AreQueues : (s : SvcState) (c : MqCall) → AreQueues s.mqs → AreQueues (call s c).mqs
unfolding call create_mq
call-AreQueues s (creates name max_messages size) all =
    insert-AreQueues s.next_mq _ s.mqs (record { sorted = tt; within = omega arith; fits = tt }) all
call-AreQueues s (closes h) all = close_mq-AreQueues s h all
call-AreQueues s (sends h payload priority) all = send_msg-AreQueues s h payload priority all
call-AreQueues s (receives h buf_size) all = recv_msg-AreQueues s h buf_size all

calls_from-AreQueues :
    (s : SvcState) (cs : List MqCall) → AreQueues s.mqs → AreQueues (calls s cs).mqs
unfolding calls
calls_from-AreQueues s [] all = all
calls_from-AreQueues s (c ∷ cs) all = calls_from-AreQueues (call s c) cs (call-AreQueues s c all)

-- After Init and any history of creations, closings, sends and receives, each message queue has
-- its highest priorities in front, no more messages than its attributes allow, and no message
-- longer than they allow.
pub calls-AreQueues : (s : SvcState) (cs : List MqCall) → AreQueues (calls (init s) cs).mqs
unfolding init
calls-AreQueues s cs = calls_from-AreQueues (init s) cs tt
