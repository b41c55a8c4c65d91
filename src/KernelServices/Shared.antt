-- ===== src/KernelServices/Shared.antt =====
-- Single calls: a message through a queue, and the reference counts of shared memory.
use ps5x_windows.Base.{
  ℕ, ◌+◌, ◌^◌, ◌<◌, ◌≡◌, ◌≢◌, refl, ◌∙◌, none, some, List, [], ◌∷◌, Bool, true, String, ltb, length,
  take, All, lookup, insert, erase, lookup-insert, lookup-erase, arith, ==_ne,
}
use ps5x_windows.Memory.State.{find_base, prot_read, prot_write, system}
use ps5x_windows.Memory.Virtual.{map, unmap}
use ps5x_windows.Memory.Committed.{unmap-map_committed}
use ps5x_windows.KernelServices.State.{MsgEntry, MqEntry, ShmEntry, SvcState}
use ps5x_windows.KernelServices.Queue.{insert_msg, queue_send, queue_recv}
use ps5x_windows.KernelServices.Services.{
  create_shm, find_shm, open_shm, retain, close_shm, send_msg, recv_msg, with_refs, count_up,
  count_down,
}
use ps5x_windows.KernelServices.Order.{IsBelow}

insert_first :
    (m : MsgEntry) (ms : List MsgEntry) → All (IsBelow m.priority) ms → insert_msg m ms ≡ m ∷ ms
unfolding insert_msg
insert_first m [] v = refl
insert_first m (x ∷ xs) v = ground (arith, v.0)

-- The state after a message was taken into the queue `q` under the handle `h`.
sent : SvcState → ℕ → MqEntry → List ℕ → ℕ → SvcState
sent s h q payload priority = record s { mqs = insert h (queue_send q payload priority) s.mqs }

send_msg_lem :
    (s : SvcState) (h : ℕ) (q : MqEntry) (payload : List ℕ) (priority : ℕ)
    → lookup h s.mqs ≡ some q
    → length q.msgs < q.max_messages
    → send_msg s h payload priority ≡ (true, sent s h q payload priority)
unfolding send_msg sent
send_msg_lem s h q payload priority e room =
    let roomy : ltb (length q.msgs) q.max_messages ≡ true = ground arith in
    rw (e, roomy, send_msg) refl

recv_msg_lem :
    (s : SvcState) (h buf_size : ℕ) (q : MqEntry) (m : MsgEntry) (ms : List MsgEntry)
    → lookup h s.mqs ≡ some q
    → q.msgs ≡ m ∷ ms
    → recv_msg s h buf_size ≡ (
      some (take buf_size m.payload, m.priority),
      record s { mqs = insert h (record q { msgs = ms }) s.mqs },
    )
unfolding recv_msg queue_recv
recv_msg_lem s h buf_size q m ms e front = rw (e, recv_msg, front) refl

-- A message sent to a queue that has room and no message of a higher priority is what the next
-- receive gives, cut to the queue's and the receiver's sizes, and the tables of queues are then as
-- before.
pub recv_msg-send_msg :
    (s : SvcState) (h buf_size : ℕ) (q : MqEntry) (payload : List ℕ) (priority : ℕ)
    → lookup h s.mqs ≡ some q
    → length q.msgs < q.max_messages
    → All (IsBelow priority) q.msgs
    → (t : SvcState) × (u : SvcState) × (send_msg s h payload priority ≡ (true, t))
      × (recv_msg t h buf_size ≡ (some (take buf_size (take q.max_msg_size payload), priority), u))
      × ((k : ℕ) → lookup k u.mqs ≡ lookup k s.mqs)
unfolding sent queue_send
recv_msg-send_msg s h buf_size q payload priority e room top =
    let m : MsgEntry = record { payload = take q.max_msg_size payload; priority = priority } in
    let t = sent s h q payload priority in
    let found : lookup h t.mqs ≡ some (queue_send q payload priority) =
      lookup-insert h h _ s.mqs ∙ ground arith in
    (
      t,
      record t { mqs = insert h q t.mqs },
      send_msg_lem s h q payload priority e room,
      recv_msg_lem t h buf_size (queue_send q payload priority) m q.msgs found
          (insert_first m q.msgs top),
      λ k. ground (
        arith,
        e,
        lookup-insert h k q t.mqs,
        lookup-insert h k (queue_send q payload priority) s.mqs,
      ),
    )

-- The state after one more user was counted.
retained : SvcState → ℕ → ShmEntry → SvcState
retained s h e = record s { shms = insert h (with_refs e (count_up e.ref_count)) s.shms }

retain_lem :
    (s : SvcState) (h : ℕ) (e : ShmEntry)
    → lookup h s.shms ≡ some e
    → retain s h ≡ (some h, retained s h e)
unfolding retain retained
retain_lem s h e found = rw (found, retain) refl

close_shm_lem :
    (s : SvcState) (h : ℕ) (e : ShmEntry) (answer : Bool)
    → lookup h s.shms ≡ some e
    → count_down e.ref_count ≢ 0
    → close_shm s h answer
      ≡ (true, record s { shms = insert h (with_refs e (count_down e.ref_count)) s.shms })
unfolding close_shm
close_shm_lem s h e answer found n = rw (found, close_shm, ==_ne (count_down e.ref_count) 0 n) refl

open_shm_lem :
    (s : SvcState) (name : String) (h : ℕ) (e : ShmEntry)
    → find_shm name s.shms ≡ some h
    → lookup h s.shms ≡ some e
    → open_shm s name ≡ (some h, retained s h e)
unfolding open_shm
open_shm_lem s name h e by_name found = rw (by_name, open_shm) (retain_lem s h e found)

-- OpenShm of a name that is found, with a count of users between 1 and 2 ^ 32 - 1, and CloseShm of
-- its handle: both succeed, every entry is as it was, and nothing is unmapped.
pub close_shm-open_shm :
    (s : SvcState) (name : String) (h : ℕ) (e : ShmEntry) (answer : Bool)
    → find_shm name s.shms ≡ some h
    → lookup h s.shms ≡ some e
    → 0 < e.ref_count
    → e.ref_count < 2 ^ 32
    → (t : SvcState) × (u : SvcState) × (open_shm s name ≡ (some h, t))
      × (close_shm t h answer ≡ (true, u))
      × ((k : ℕ) → lookup k u.shms ≡ lookup k s.shms)
      × (u.memory ≡ s.memory)
unfolding retained
close_shm-open_shm s name h e answer by_name found pos small =
    let t = retained s h e in
    let e' = with_refs e (count_up e.ref_count) in
    let back : count_down (count_up e.ref_count) ≡ e.ref_count = omega arith in
    let again : lookup h t.shms ≡ some e' = lookup-insert h h e' s.shms ∙ ground arith in
    (
      t,
      record t { shms = insert h (with_refs e' (count_down e'.ref_count)) t.shms },
      open_shm_lem s name h e by_name found,
      close_shm_lem t h e' answer again (λ z. omega (arith, z)),
      λ k. rw back (
          ground (
            arith,
            found,
            lookup-insert h k (with_refs e' e.ref_count) t.shms,
            lookup-insert h k e' s.shms,
          )),
      refl,
    )

-- The state that CreateShm leaves when Memory::Map succeeds.
created : SvcState → String → ℕ → ℕ → SvcState
created s name size base =
    let e : ShmEntry = record { name = name; size = size; mem_base = base; ref_count = 1 } in
    record s {
      memory = (map s.memory size (prot_read + prot_write) system name (some base)).1;
      next_shm = s.next_shm + 1;
      shms = insert s.next_shm e s.shms;
    }

create_shm_lem :
    (s : SvcState) (name : String) (size base : ℕ)
    → base ≢ 0
    → create_shm s name size (some base) ≡ (some s.next_shm, created s name size base)
unfolding create_shm created map
create_shm_lem s name size base n = rw (==_ne base 0 n, create_shm) refl

-- The close of the last user.
closed : SvcState → ℕ → ShmEntry → SvcState
closed s h e = record s { memory = (unmap s.memory e.mem_base true).1; shms = erase h s.shms }

close_last :
    (s : SvcState) (h : ℕ) (e : ShmEntry)
    → lookup h s.shms ≡ some e
    → e.ref_count ≡ 1
    → close_shm s h true ≡ (true, closed s h e)
unfolding close_shm closed
close_last s h e found one = rw (found, close_shm, one) refl

-- CreateShm at a new base that is not null, from reserved bytes below 2 ^ 64 and under an unused
-- handle, and CloseShm of it: both succeed, the table of shared memories is as it was, and the
-- memory manager has the regions and the reserved bytes that it had.
pub close_shm-create_shm :
    (s : SvcState) (name : String) (size base : ℕ)
    → base ≢ 0
    → find_base base s.memory.regions ≡ none
    → s.memory.stats.total_reserved < 2 ^ 64
    → lookup s.next_shm s.shms ≡ none
    → (t : SvcState) × (u : SvcState) × (create_shm s name size (some base) ≡ (some s.next_shm, t))
      × (close_shm t s.next_shm true ≡ (true, u))
      × ((k : ℕ) → lookup k u.shms ≡ lookup k s.shms)
      × (u.memory.regions ≡ s.memory.regions)
      × (u.memory.stats.total_reserved ≡ s.memory.stats.total_reserved)
unfolding created closed
close_shm-create_shm s name size base n fresh bound unused =
    let e : ShmEntry = record { name = name; size = size; mem_base = base; ref_count = 1 } in
    let t = created s name size base in
    let found : lookup s.next_shm t.shms ≡ some e =
      lookup-insert s.next_shm s.next_shm e s.shms ∙ ground arith in
    let back =
      unmap-map_committed s.memory size (prot_read + prot_write) base system name fresh bound in
    (
      t,
      closed t s.next_shm e,
      create_shm_lem s name size base n,
      close_last t s.next_shm e found refl,
      λ k.
          ground
            (arith, unused, lookup-erase s.next_shm k t.shms, lookup-insert s.next_shm k e s.shms),
      back.0,
      back.1,
    )
