-- ===== src/KernelServices/Queue.antt =====
-- The part of SendMsg and RecvMsg that works on one queue, once its wait is over.
use ps5x_windows.Base.{ℕ, Option, none, some, List, [], ◌∷◌, ltb, if◌then◌else◌, take}
use ps5x_windows.KernelServices.State.{MsgEntry, MqEntry}

-- The insertion at std::lower_bound: before the first message whose priority is not above.
unfoldable pub insert_msg : MsgEntry → List MsgEntry → List MsgEntry
insert_msg m [] = m ∷ []
insert_msg m (x ∷ xs) =
    let rest = insert_msg m xs in if ltb m.priority x.priority then x ∷ rest else m ∷ x ∷ xs

-- A message longer than the queue allows is cut.
unfoldable pub queue_send : MqEntry → List ℕ → ℕ → MqEntry
queue_send q payload priority =
    let m : MsgEntry = record { payload = take q.max_msg_size payload; priority = priority } in
    record q { msgs = insert_msg m q.msgs }

-- The front message: the bytes that fit the buffer, and the priority.
unfoldable pub queue_recv : MqEntry → ℕ → Option ((List ℕ × ℕ) × MqEntry)
queue_recv q buf_size = elim q.msgs [
  | [] ↦ none
  | m ∷ ms ↦ some ((take buf_size m.payload, m.priority), record q { msgs = ms })
]
