-- ===== src/ModuleRegistry/Tests.antt =====
-- The theorem at a small registry.
use ps5x_windows.Base.{◌≡◌, refl, some, [], ◌∷◌, true, false, arith}
use ps5x_windows.KernelRuntime.Ports.{find_name}
use ps5x_windows.ModuleRegistry.Table.{
  ExecutableInfo, RegistryState, is_export, exports_of, new_module, register, listed, needed,
  unload, find_export, resolve_symbol_in, resolve_from, resolve_symbol,
}
use ps5x_windows.ModuleRegistry.Count.{register_times, unload_times, forgotten, unload-register}

abbrev kernel_elf : ExecutableInfo
kernel_elf = record {
  image_base = 0x1000;
  image_size = 0x400;
  symbols = record { name = "open"; value = 0x20; size = 8; kind = 2 } ∷ [];
}

abbrev game_elf : ExecutableInfo
game_elf = record { image_base = 0x8000; image_size = 0x200; symbols = [] }

abbrev one_loaded : RegistryState
one_loaded = record {
  modules = (1, new_module 1 "libkernel" "/lib/libkernel.prx" kernel_elf false 5) ∷ [];
  by_name = ("libkernel", 1) ∷ [];
  load_order = 1 ∷ [];
  next_id = 2;
  main_module = 0;
  unloads = [];
}

unload-register_example :
    (t : RegistryState) × (register "game" "/app0/game" game_elf true 9 one_loaded ≡ (2, t))
    × (unload_times 3 2 (register_times 3 "game" "/app0/game" game_elf true 9 t) ≡ some t)
    × (unload 2 t ≡ (true, forgotten "game" "/app0/game" game_elf true 9 one_loaded))
unfolding find_name listed needed new_module
unload-register_example =
    unload-register 3 "game" "/app0/game" game_elf true 9 one_loaded (omega arith) refl refl refl
      refl

resolves_open :
    resolve_symbol "open" one_loaded
    ≡ some (record { name = "open"; address = 0x1020; size = 8; kind = 2; owner = 1 })
unfolding resolve_symbol resolve_from resolve_symbol_in find_export new_module exports_of is_export
resolves_open = refl
