-- ===== src/KernelRuntime/Tests.antt =====
-- The theorems at concrete states.
use ps5x_windows.Base.{◌+◌, ◌-◌, ◌≡◌, refl, min, none, some, [], ◌∷◌, map, true, take, arith}
use ps5x_windows.KernelRuntime.Handles.{
  KSemaphore, a_semaphore, KernelState, close_handle, duplicate_handle,
}
use ps5x_windows.KernelRuntime.Objects.{wait_semaphore, signal_semaphore, get_semaphore_value}
use ps5x_windows.KernelRuntime.Ports.{
  P6State, create_ipc_port, connect_ipc_port, ipc_recv, received, failed,
}
use ps5x_windows.KernelRuntime.Sharing.{wait_semaphore-signal_semaphore}
use ps5x_windows.KernelRuntime.Fifo.{send_all, recv_all, recv_all-send_all}

abbrev frames : KSemaphore
frames = record { name = "frames"; max_value = 3; value = 0 }

abbrev one_semaphore : KernelState
one_semaphore = record {
  objects = (1, a_semaphore frames) ∷ [];
  next_object = 2;
  handles = (1, 1) ∷ [];
  next_handle = 2;
  tls_keys = [];
  next_tls_key = 0;
}

wait_semaphore-signal_semaphore_example :
    (t : KernelState) × (u : KernelState) × (w : KernelState) × (x : KernelState)
    × (duplicate_handle 1 one_semaphore ≡ (some 2, t))
    × (signal_semaphore 2 5 t ≡ some (true, u))
    × (wait_semaphore 1 u ≡ (true, w))
    × (get_semaphore_value 1 w ≡ some (min (0 + 5) 3 - 1))
    × (close_handle 1 w ≡ (true, x))
    × (get_semaphore_value 1 x ≡ none)
    × (get_semaphore_value 2 x ≡ some (min (0 + 5) 3 - 1))
wait_semaphore-signal_semaphore_example =
    wait_semaphore-signal_semaphore one_semaphore 1 1 5 frames refl refl (λ z. omega (arith, z))
      (omega arith) (omega arith) (omega arith)

abbrev no_ports : P6State
no_ports = record {
  wqs = [];
  next_wq = 1;
  entries = [];
  next_entry = 0;
  ipc_by_name = [];
  ipc_by_handle = [];
  next_ipc = 1;
}

recv_all-send_all_example :
    (r : P6State) × (t : P6State) × (u : P6State) × (create_ipc_port "log" no_ports ≡ some (1, r))
    × (connect_ipc_port "log" r ≡ some (some 2, t))
    × (recv_all 1 2 50 2 (send_all 2 ((7 ∷ 8 ∷ 9 ∷ []) ∷ (5 ∷ []) ∷ []) t)
        ≡ (map (λ m. received (take 2 m)) ((7 ∷ 8 ∷ 9 ∷ []) ∷ (5 ∷ []) ∷ []), u))
    × (ipc_recv 1 2 50 u ≡ (failed, u))
recv_all-send_all_example =
    recv_all-send_all "log" no_ports ((7 ∷ 8 ∷ 9 ∷ []) ∷ (5 ∷ []) ∷ []) 2 50 (omega arith)
