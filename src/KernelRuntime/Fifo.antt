-- ===== src/KernelRuntime/Fifo.antt =====
-- The order of the messages of a port.
use text.Mathlib.TextPositions.{eq_refl}
use mathlib.Core.List.{append_assoc, append-nil}
use ps5x_windows.Base.{
  ℕ, zero, suc, ◌+◌, ◌≡◌, ◌≢◌, refl, ◌∙◌, some, List, [], ◌∷◌, ◌++◌, map, true, String, ==_ne,
  length, take, lookup, insert, lookup-insert, arith, ◌-◌, ◌^◌, ◌<◌, ◌==◌, ltb, lt→ltb,
  if◌then◌else◌,
}
use ps5x_windows.KernelRuntime.Ports.{
  find_name, set_name, IpcEntry, P6State, create_ipc_port, connect_ipc_port, entry_of, ipc_send,
  take_message, ipc_recv, Reception, received, failed, waits_on, without_message,
}

-- Messages sent one after another, and a number of receptions.
unfoldable pub send_all : ℕ → List (List ℕ) → P6State → P6State
send_all h [] s = s
send_all h (m ∷ ms) s = send_all h ms (ipc_send h m s).1

unfoldable pub recv_all : (h buf_size timeout_us n : ℕ) → P6State → List Reception × P6State
recv_all h buf_size timeout_us zero s = ([], s)
recv_all h buf_size timeout_us (suc n) s =
    let (m, t) = ipc_recv h buf_size timeout_us s in
    let (ms, u) = recv_all h buf_size timeout_us n t in (m ∷ ms, u)

-- An open handle on an entry whose queue holds the messages.
record Holds (h o : ℕ) (e : IpcEntry) (s : P6State) : Type 0 where
  open_handle : lookup h s.ipc_by_handle ≡ some o
  stored : lookup o s.entries ≡ some e

entry_of_lem : (h o : ℕ) (e : IpcEntry) (s : P6State) → Holds h o e s → entry_of h s ≡ some (o, e)
unfolding entry_of
entry_of_lem h o e s k = rw (entry_of, k.open_handle, k.stored) refl

abbrev with_queue : IpcEntry → List (List ℕ) → IpcEntry
with_queue e ms = record e { queue = ms }

-- The state with a new queue of an entry.
abbrev refilled : ℕ → IpcEntry → P6State → P6State
refilled o e s = record s { entries = insert o e s.entries }

refilled-Holds :
    (h o : ℕ) (e f : IpcEntry) (s : P6State) → Holds h o e s → Holds h o f (refilled o f s)
refilled-Holds h o e f s k = record {
  open_handle = k.open_handle;
  stored = lookup-insert o o f s.entries ∙ ground arith;
}

ipc_send_lem :
    (h o : ℕ) (e : IpcEntry) (m : List ℕ) (s : P6State)
    → Holds h o e s
    → ipc_send h m s ≡ (true, refilled o (with_queue e (e.queue ++ (m ∷ []))) s)
unfolding ipc_send
ipc_send_lem h o e m s k = rw (ipc_send, entry_of_lem h o e s k) refl

ipc_recv_lem :
    (h o buf_size timeout_us : ℕ) (e : IpcEntry) (m : List ℕ) (ms : List (List ℕ)) (s : P6State)
    → Holds h o e s
    → e.queue ≡ m ∷ ms
    → ipc_recv h buf_size timeout_us s
      ≡ (received (take buf_size m), refilled o (with_queue e ms) s)
unfolding ipc_recv take_message
ipc_recv_lem h o buf_size timeout_us e m ms s k q =
    rw (ipc_recv, entry_of_lem h o e s k, take_message, q) refl

send_all-Holds :
    (h g o : ℕ) (e : IpcEntry) (ms : List (List ℕ)) (s : P6State)
    → Holds h o e s
    → Holds g o e s
    → Holds g o (with_queue e (e.queue ++ ms)) (send_all h ms s)
unfolding send_all
send_all-Holds h g o e [] s k j = record {
  open_handle = j.open_handle;
  stored = j.stored ∙ rw (append-nil e.queue) refl;
}
send_all-Holds h g o e (m ∷ ms) s k j =
    let f = with_queue e (e.queue ++ (m ∷ [])) in
    let rest =
      send_all-Holds h g o f ms (refilled o f s) (refilled-Holds h o e f s k)
        (refilled-Holds g o e f s j) in
    rw (ipc_send_lem h o e m s k, ← append_assoc e.queue (m ∷ []) ms) rest

recv_all-Holds :
    (h o buf_size timeout_us : ℕ) (e : IpcEntry) (ms : List (List ℕ)) (s : P6State)
    → Holds h o (with_queue e ms) s
    → (t : P6State) × (recv_all h buf_size timeout_us (length ms) s
        ≡ (map (λ m. received (take buf_size m)) ms, t))
      × Holds h o (with_queue e []) t
unfolding recv_all
recv_all-Holds h o buf_size timeout_us e [] s k = (s, refl, k)
recv_all-Holds h o buf_size timeout_us e (m ∷ ms) s k =
    let t = refilled o (with_queue e ms) s in
    let (u, rest, j) =
      recv_all-Holds h o buf_size timeout_us e ms t
        (refilled-Holds h o (with_queue e (m ∷ ms)) (with_queue e ms) s k) in
    (
      u,
      rw
          (
            recv_all,
            ipc_recv_lem h o buf_size timeout_us (with_queue e (m ∷ ms)) m ms s k refl,
            rest,
          )
          refl,
      j,
    )

find_name-set_name :
    (name : String) (v : ℕ) (m : List (String × ℕ)) → find_name name (set_name name v m) ≡ some v
unfolding find_name set_name
find_name-set_name name v m = rw (eq_refl name) refl

-- A connection finds the port of its name.
connect_ipc_port-create_ipc_port :
    (name : String) (s : P6State)
    → s.next_ipc + 2 < 2 ^ 31
    → (r : P6State) × (t : P6State) × (create_ipc_port name s ≡ some (s.next_ipc, r))
      × (connect_ipc_port name r ≡ some (some (s.next_ipc + 1), t))
      × Holds s.next_ipc s.next_entry (record { name = name; queue = []; server = true }) t
      × Holds (s.next_ipc + 1) s.next_entry (record { name = name; queue = []; server = true }) t
unfolding connect_ipc_port create_ipc_port
connect_ipc_port-create_ipc_port name s few =
    let e : IpcEntry = record { name = name; queue = []; server = true } in
    let h = s.next_ipc in
    let o = s.next_entry in
    let r = record s {
      entries = insert o e s.entries;
      next_entry = o + 1;
      ipc_by_name = set_name name o s.ipc_by_name;
      ipc_by_handle = insert h o s.ipc_by_handle;
      next_ipc = h + 1;
    } in
    let t = record r { ipc_by_handle = insert (h + 1) o r.ipc_by_handle; next_ipc = h + 1 + 1 } in
    let stored : lookup o t.entries ≡ some e = lookup-insert o o e s.entries ∙ ground arith in
    let apart : h + 1 ≢ h = λ q. omega (arith, q) in
    let first : lookup h t.ipc_by_handle ≡ some o =
      lookup-insert (h + 1) h o r.ipc_by_handle
      ∙ rw (==_ne (h + 1) h apart) (lookup-insert h h o s.ipc_by_handle ∙ ground arith) in
    let second : lookup (h + 1) t.ipc_by_handle ≡ some o =
      lookup-insert (h + 1) (h + 1) o r.ipc_by_handle ∙ ground arith in
    let fits : ltb h (2 ^ 31 - 1) ≡ true = lt→ltb _ _ (omega (arith, few)) in
    let fits_next : ltb (h + 1) (2 ^ 31 - 1) ≡ true = lt→ltb _ _ (omega (arith, few)) in
    (
      r,
      t,
      rw (create_ipc_port, fits) refl,
      rw (connect_ipc_port, find_name-set_name name o s.ipc_by_name, fits_next) refl,
      record { open_handle = first; stored = stored },
      record { open_handle = second; stored = stored },
    )

-- CreateIpcPort and ConnectIpcPort of its name, where the next handle is two below the int32_t's
-- end or less: they give the next two handles, and any messages sent through the connection are
-- what the server's handle receives, with any timeout, in the order sent, each cut to the
-- receiver's buffer; then the port is empty, so that one more reception, where no message comes,
-- reports -1, and waits on where the timeout is UINT64_MAX.
pub recv_all-send_all :
    (name : String) (s : P6State) (messages : List (List ℕ)) (buf_size timeout_us : ℕ)
    → s.next_ipc + 2 < 2 ^ 31
    → (r : P6State) × (t : P6State) × (u : P6State) × (create_ipc_port name s
        ≡ some (s.next_ipc, r))
      × (connect_ipc_port name r ≡ some (some (s.next_ipc + 1), t))
      × (recv_all s.next_ipc buf_size timeout_us
            (length messages)
            (send_all (s.next_ipc + 1) messages t)
          ≡ (map (λ m. received (take buf_size m)) messages, u))
      × (ipc_recv s.next_ipc buf_size timeout_us u
          ≡ ((if timeout_us == 2 ^ 64 - 1 then waits_on else failed), u))
unfolding ipc_recv take_message without_message
recv_all-send_all name s messages buf_size timeout_us few =
    let e : IpcEntry = record { name = name; queue = []; server = true } in
    let h = s.next_ipc in
    let o = s.next_entry in
    let (r, t, created, connected, server, client) = connect_ipc_port-create_ipc_port name s few in
    let full = send_all-Holds (h + 1) h o e messages t client server in
    let (u, received_all, left) =
      recv_all-Holds h o buf_size timeout_us e messages (send_all (h + 1) messages t) full in
    (
      r,
      t,
      u,
      created,
      connected,
      received_all,
      rw (ipc_recv, entry_of_lem h o (with_queue e []) u left) refl,
    )
