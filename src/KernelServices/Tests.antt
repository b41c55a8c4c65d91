-- ===== src/KernelServices/Tests.antt =====
-- The theorems at concrete states.
use ps5x_windows.Base.{ℕ, ◌≡◌, refl, true, some, [], ◌∷◌, arith, lookup, take}
use ps5x_windows.Memory.State.{zero_stats, find_base}
use ps5x_windows.KernelServices.State.{MsgEntry, MqEntry, ShmEntry, SvcState, init}
use ps5x_windows.KernelServices.Services.{
  create_shm, open_shm, close_shm, find_shm, send_msg, recv_msg,
}
use ps5x_windows.KernelServices.Order.{AreQueues, calls, creates, sends, receives, calls-AreQueues}
use ps5x_windows.KernelServices.Shared.{recv_msg-send_msg, close_shm-open_shm, close_shm-create_shm}

abbrev greeting : MsgEntry
greeting = record { payload = 1 ∷ 2 ∷ []; priority = 4 }

abbrev inbox : MqEntry
inbox = record { max_messages = 2; max_msg_size = 3; name = "inbox"; msgs = greeting ∷ [] }

abbrev frame_shm : ShmEntry
frame_shm = record { name = "frame"; size = 100; mem_base = 0x8000; ref_count = 1 }

abbrev busy : SvcState
busy = record {
  shms = (1, frame_shm) ∷ [];
  mqs = (1, inbox) ∷ [];
  rws = [];
  cvs = [];
  next_shm = 2;
  next_mq = 2;
  next_rw = 1;
  next_cv = 1;
  memory = record { regions = []; heap_allocs = []; stats = zero_stats };
}

calls-AreQueues_example :
    AreQueues
      (calls
        (init busy)
        (creates "q" 1 4 ∷ sends 1 (7 ∷ []) 2 ∷ sends 1 (8 ∷ []) 3 ∷ receives 1 16 ∷ [])).mqs
calls-AreQueues_example =
    calls-AreQueues busy
      (creates "q" 1 4 ∷ sends 1 (7 ∷ []) 2 ∷ sends 1 (8 ∷ []) 3 ∷ receives 1 16 ∷ [])

recv_msg-send_msg_example :
    (t : SvcState) × (u : SvcState) × (send_msg busy 1 (9 ∷ 8 ∷ 7 ∷ 6 ∷ []) 5 ≡ (true, t))
    × (recv_msg t 1 2 ≡ (some (take 2 (take 3 (9 ∷ 8 ∷ 7 ∷ 6 ∷ [])), 5), u))
    × ((k : ℕ) → lookup k u.mqs ≡ lookup k busy.mqs)
recv_msg-send_msg_example =
    recv_msg-send_msg busy 1 2 inbox (9 ∷ 8 ∷ 7 ∷ 6 ∷ []) 5 refl (omega arith) (omega arith, tt)

close_shm-open_shm_example :
    (t : SvcState) × (u : SvcState) × (open_shm busy "frame" ≡ (some 1, t))
    × (close_shm t 1 true ≡ (true, u))
    × ((k : ℕ) → lookup k u.shms ≡ lookup k busy.shms)
    × (u.memory ≡ busy.memory)
unfolding find_shm
close_shm-open_shm_example =
    close_shm-open_shm busy "frame" 1 frame_shm true refl refl (omega arith) (omega arith)

close_shm-create_shm_example :
    (t : SvcState) × (u : SvcState) × (create_shm busy "new" 300 (some 0x10000) ≡ (some 2, t))
    × (close_shm t 2 true ≡ (true, u))
    × ((k : ℕ) → lookup k u.shms ≡ lookup k busy.shms)
    × (u.memory.regions ≡ busy.memory.regions)
    × (u.memory.stats.total_reserved ≡ busy.memory.stats.total_reserved)
unfolding find_base
close_shm-create_shm_example =
    close_shm-create_shm busy "new" 300 0x10000 (λ e. omega (arith, e)) refl (omega arith) refl
