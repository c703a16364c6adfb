-- ===== src/Symtable/Symbols.antt =====
-- What the table promises: a map from names to the state of a symbol, on which the operations of
-- symtable/symtable.c are transitions.
use nazm.Prelude.{Bool, true, false, if◌then◌else◌, Option, none, some, ℤ}
use nazm.Prelude.{same_bytes}
use nazm.Symtable.{
  Name, SymbolSection, SymbolBinding, local, global, same_binding, SymEntry, SymbolTable,
  find_entry,
}

-- A declared symbol has an explicit binding and no label yet; a defined one has the offset and the
-- section of its label, its binding, and whether the binding is explicit.
pub data Symbol : Type 0 where
  absent : Symbol
  declared : SymbolBinding → Symbol
  external : Symbol
  defined : ℤ → SymbolSection → SymbolBinding → Bool → Symbol

-- A label is defined once, and never where an external symbol was declared.
unfoldable pub define : SymbolSection → ℤ → Symbol → Bool × Symbol
define section offset absent = (true, defined offset section local false)
define section offset (declared b) = (true, defined offset section b true)
define section offset external = (false, external)
define section offset (defined o s b x) = (false, defined o s b x)

-- An explicit binding may be repeated and not changed; an external symbol is global.
unfoldable pub bind : SymbolBinding → Symbol → Bool × Symbol
bind binding absent = (true, declared binding)
bind binding (declared b) = (same_binding b binding, declared b)
bind binding external = (same_binding global binding, external)
bind binding (defined o s b true) = (same_binding b binding, defined o s b true)
bind binding (defined o s b false) = (true, defined o s binding true)

-- A symbol without a label is external unless it was bound locally.
unfoldable pub declare : Symbol → Bool × Symbol
declare absent = (true, external)
declare (declared global) = (true, external)
declare (declared local) = (false, declared local)
declare external = (true, external)
declare (defined o s b x) = (false, defined o s b x)

-- The requests of the first pass, in its order.
pub data Request : Type 0 where
  insert_section : Name → SymbolSection → ℤ → Request
  declare_binding : Name → SymbolBinding → Request
  declare_external : Name → Request

abbrev pub Symbols : Type 0
Symbols = Name → Symbol

abbrev pub set_symbol : Symbols → Name → Symbol → Symbols
set_symbol symbols name symbol other = if same_bytes name other then symbol else symbols other

-- The name of a request and its transition.
abbrev pub subject : Request → Name
subject (insert_section name section offset) = name
subject (declare_binding name binding) = name
subject (declare_external name) = name

abbrev pub transition : Request → Symbol → Bool × Symbol
transition (insert_section name section offset) = define section offset
transition (declare_binding name binding) = bind binding
transition (declare_external name) = declare

unfoldable pub specified : Request → Symbols → Bool × Symbols
specified r symbols =
    let (reply, symbol) = transition r (symbols (subject r)) in
    (reply, set_symbol symbols (subject r) symbol)

-- The symbol that an entry stands for.
unfoldable pub symbol_of : Option SymEntry → Symbol
symbol_of none = absent
symbol_of (some e) =
    if e.defined
    then defined e.offset e.section e.binding e.binding_declared
    else if e.external_declared
    then external
    else declared e.binding

unfoldable pub view : SymbolTable → Symbols
view st name = symbol_of (find_entry st name)
