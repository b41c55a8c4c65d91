-- ===== src/ModuleRegistry/Table.antt =====
-- The registry's table, the registration, the release and the symbols. `now` is what NowUs reads.
-- The order of the table is the host library's.
use text.Mathlib.Text.{◌==◌ as str_eq}
use ps5x_windows.Base.{
  ℕ, ◌+◌, ◌-◌, ◌%◌, ◌^◌, Option, none, some, List, [], ◌∷◌, ◌++◌, Bool, true, false, String, not,
  ◌&&◌, ◌||◌, ◌==◌, ltb, if◌then◌else◌, lookup, insert, erase,
}
use ps5x_windows.KernelRuntime.Ports.{find_name, erase_name, set_name}

-- What the registry reads of the loader's Symbol and ExecutableInfo.
pub record Symbol : Type 0 where
  pub name : String
  pub value : ℕ
  pub size : ℕ
  pub kind : ℕ

pub record ExecutableInfo : Type 0 where
  pub image_base : ℕ
  pub image_size : ℕ
  pub symbols : List Symbol

pub record ExportedSymbol : Type 0 where
  pub name : String
  pub address : ℕ
  pub size : ℕ
  pub kind : ℕ
  pub owner : ℕ

pub record ModuleDesc : Type 0 where
  pub id : ℕ
  pub name : String
  pub path : String
  pub elf_info : ExecutableInfo
  pub deps : List ℕ
  pub exports : List ExportedSymbol
  pub ref_count : ℕ
  pub is_main : Bool
  pub loaded : Bool
  pub load_time_us : ℕ
  pub base_addr : ℕ
  pub size : ℕ

-- RegistryState; `unloads` has the executables given to UnloadExecutable, the last one first.
pub record RegistryState : Type 0 where
  pub modules : List (ℕ × ModuleDesc)
  pub by_name : List (String × ℕ)
  pub load_order : List ℕ
  pub next_id : ℕ
  pub main_module : ℕ
  pub unloads : List ExecutableInfo

abbrev empty_elf : ExecutableInfo
empty_elf = record { image_base = 0; image_size = 0; symbols = [] }

-- The module that `modules[id]` makes where there is none.
abbrev no_module : ModuleDesc
no_module = record {
  id = 0;
  name = "";
  path = "";
  elf_info = empty_elf;
  deps = [];
  exports = [];
  ref_count = 0;
  is_main = false;
  loaded = false;
  load_time_us = 0;
  base_addr = 0;
  size = 0;
}

unfoldable pub init : RegistryState → RegistryState
init s = record s { modules = []; by_name = []; load_order = []; next_id = 1; main_module = 0 }

unfoldable pub is_export : Symbol → Bool
is_export sym = (sym.kind == 2 || sym.kind == 1) && not (str_eq sym.name "") && not (sym.value == 0)

unfoldable pub exports_of : (id base : ℕ) → List Symbol → List ExportedSymbol
exports_of id base [] = []
exports_of id base (sym ∷ syms) =
    let rest = exports_of id base syms in
    if is_export sym
    then record {
      name = sym.name;
      address = (sym.value + base) % 2 ^ 64;
      size = sym.size;
      kind = sym.kind;
      owner = id;
    }
      ∷ rest
    else rest

unfoldable pub new_module :
    (id : ℕ) → (name path : String) → ExecutableInfo → Bool → (now : ℕ) → ModuleDesc
new_module id name path elf is_main now = record {
  id = id;
  name = name;
  path = path;
  elf_info = elf;
  deps = [];
  exports = exports_of id elf.image_base elf.symbols;
  ref_count = 1;
  is_main = is_main;
  loaded = true;
  load_time_us = now;
  base_addr = elf.image_base;
  size = elf.image_size;
}

unfoldable pub module_at : ℕ → List (ℕ × ModuleDesc) → ModuleDesc
module_at id table = elim (lookup id table) [ none ↦ no_module | some m ↦ m ]

-- One more reference to a module.
unfoldable pub count_up : ModuleDesc → ModuleDesc
count_up m = record m { ref_count = (m.ref_count + 1) % 2 ^ 32 }

unfoldable pub count_module : ℕ → RegistryState → RegistryState
count_module id s = record s { modules = insert id (count_up (module_at id s.modules)) s.modules }

unfoldable pub add_module :
    (name path : String) → ExecutableInfo → Bool → (now : ℕ) → RegistryState → RegistryState
add_module name path elf is_main now s = record s {
  modules = insert s.next_id (new_module s.next_id name path elf is_main now) s.modules;
  by_name = set_name name s.next_id s.by_name;
  load_order = s.load_order ++ (s.next_id ∷ []);
  next_id = (s.next_id + 1) % 2 ^ 32;
  main_module = if is_main then s.next_id else s.main_module;
}

unfoldable pub register :
    (name path : String) → ExecutableInfo → Bool → (now : ℕ) → RegistryState → ℕ × RegistryState
register name path elf is_main now s = elim (find_name name s.by_name) [
  | none ↦ (s.next_id, add_module name path elf is_main now s)
  | some id ↦ (id, count_module id s)
]

-- Register of a descriptor, which is stored as it is, under its own id where it has one.
unfoldable pub store_desc : (id : ℕ) → ModuleDesc → RegistryState → RegistryState
store_desc id desc s = record s {
  modules = insert id (record desc { id = id }) s.modules;
  by_name = set_name desc.name id s.by_name;
  load_order = s.load_order ++ (id ∷ []);
}

unfoldable pub register_desc : ModuleDesc → RegistryState → ℕ × RegistryState
register_desc desc s =
    if desc.id == 0
    then (s.next_id, store_desc s.next_id desc (record s { next_id = (s.next_id + 1) % 2 ^ 32 }))
    else (desc.id, store_desc desc.id desc s)

unfoldable pub listed : ℕ → List ℕ → Bool
listed id [] = false
listed id (i ∷ is) = i == id || listed id is

unfoldable pub remove : ℕ → List ℕ → List ℕ
remove id [] = []
remove id (i ∷ is) = let rest = remove id is in if i == id then rest else i ∷ rest

-- Whether another module depends on the module.
unfoldable pub needed : ℕ → List (ℕ × ModuleDesc) → Bool
needed id [] = false
needed id ((i, m) ∷ ms) = (not (i == id) && listed id m.deps) || needed id ms

unfoldable pub drop_module : ℕ → ModuleDesc → RegistryState → RegistryState
drop_module id m s = record s {
  modules = erase id s.modules;
  by_name = erase_name m.name s.by_name;
  load_order = remove id s.load_order;
  unloads = if m.loaded then m.elf_info ∷ s.unloads else s.unloads;
}

unfoldable pub count_down : ModuleDesc → ModuleDesc
count_down m = record m { ref_count = m.ref_count - 1 }

unfoldable pub unload_module : ℕ → ModuleDesc → RegistryState → Bool × RegistryState
unload_module id m s =
    if ltb 1 m.ref_count
    then (true, record s { modules = insert id (count_down m) s.modules })
    else if needed id s.modules
    then (false, s)
    else (true, drop_module id m s)

unfoldable pub unload : ℕ → RegistryState → Bool × RegistryState
unload id s = elim (lookup id s.modules) [ none ↦ (false, s) | some m ↦ unload_module id m s ]

unfoldable pub retain : ℕ → RegistryState → Bool × RegistryState
retain id s = elim (lookup id s.modules) [
  | none ↦ (false, s)
  | some m ↦ (true, record s { modules = insert id (count_up m) s.modules })
]

unfoldable pub find_export : String → List ExportedSymbol → Option ExportedSymbol
find_export name [] = none
find_export name (sym ∷ syms) = if str_eq sym.name name then some sym else find_export name syms

unfoldable pub resolve_symbol_in : (id : ℕ) → String → RegistryState → Option ExportedSymbol
resolve_symbol_in id name s = elim (lookup id s.modules) [
  | none ↦ none
  | some m ↦ find_export name m.exports
]

-- ResolveSymbol, which takes the modules in their load order.
unfoldable pub resolve_from : List ℕ → String → RegistryState → Option ExportedSymbol
resolve_from [] name s = none
resolve_from (id ∷ ids) name s = elim (resolve_symbol_in id name s) [
  | none ↦ resolve_from ids name s
  | some sym ↦ some sym
]

unfoldable pub resolve_symbol : String → RegistryState → Option ExportedSymbol
resolve_symbol name s = resolve_from s.load_order name s
