-- ===== src/Dispatch/Payloads.antt =====
-- The payload slots that `buildPayloads` reads (cli/internal/dispatch/dispatch.go).
use millstrand.Base.{
  ◌+◌, Str, text, str_eq, str_eq_iff, str_eq_refl, ◌≡◌, ◌≢◌, refl, sym, ap, subst, inl, inr, Bool,
  true, false, Option, none, some, Option-cases, List, [], ◌∷◌, ◌++◌, length, length-append, In,
  In-cases, if◌then◌else◌, ok, ok-injective, >>=-eq-ok, arith,
}
use millstrand.Dispatch.Args.{Parsed}
use millstrand.Dispatch.Envelope.{
  Slots, slot, cut, World, load_slot, load_slots, stdin_slots, build_payloads,
}

-- No name has two slots.
abbrev pub Unique : Slots → Type 0
Unique [] = Unit
Unique ((k, v) ∷ m) = (slot k m ≡ none) × Unique m

-- A spec was read into the slot that it names.
pub record Read (w : World) (m : Slots) (spec : Str) : Type 0 where
  pub name : Str
  pub path : Str
  pub content : Str
  pub splits : cut spec ≡ some (name, path)
  pub named : name ≢ []
  pub located : path ≢ []
  pub reads : w.read_file path ≡ some content
  pub holds : slot name m ≡ some content

-- A slot of the shorter map is one of the longer, with the same content.
abbrev Extends : Slots → Slots → Type 0
Extends m n = (name content : Str) → slot name m ≡ some content → slot name n ≡ some content

Extends-append : (m : Slots) (k v : Str) → Extends m (m ++ (k, v) ∷ [])
unfolding slot
Extends-append [] k v name content h = cc
Extends-append ((j, x) ∷ m) k v name content h = ground (arith, Extends-append m k v name content)

slot-append_new : (m : Slots) (k v : Str) → slot k m ≡ none → slot k (m ++ (k, v) ∷ []) ≡ some v
unfolding slot
slot-append_new [] k v h = rw (str_eq_refl k)
slot-append_new ((j, x) ∷ m) k v h = ground (arith, slot-append_new m k v)

slot-append_ne :
    (m : Slots) (j k v : Str)
    → slot j m ≡ none
    → str_eq k j ≡ false
    → slot j (m ++ (k, v) ∷ []) ≡ none
unfolding slot
slot-append_ne [] j k v h n = ground arith
slot-append_ne ((i, x) ∷ m) j k v h n = ground (arith, slot-append_ne m j k v)

Unique-append : (m : Slots) (k v : Str) → slot k m ≡ none → Unique m → Unique (m ++ (k, v) ∷ [])
unfolding slot
Unique-append [] k v h u = (refl, tt)
Unique-append ((j, x) ∷ m) k v h u = (
  slot-append_ne m j k v u.0 (ground (arith, str_eq_iff j k, str_eq_iff k j)),
  Unique-append m k v (ground arith) u.1,
)

-- What one turn of the loop that succeeds has done.
record Loads (w : World) (spec : Str) (before after : Slots) : Type 0 where
  name : Str
  path : Str
  content : Str
  splits : cut spec ≡ some (name, path)
  named : name ≢ []
  located : path ≢ []
  reads : w.read_file path ≡ some content
  fresh : slot name before ≡ none
  adds : after ≡ before ++ (name, content) ∷ []

load_slot-Loads :
    (w : World) (spec : Str) (before after : Slots)
    → load_slot w spec (cut spec) before ≡ ok after
    → Loads w spec before after
load_slot-Loads w spec before after h = go (cut spec) refl h
  where
    go :
        (o : Option (Str × Str))
        → cut spec ≡ o
        → load_slot w spec o before ≡ ok after
        → Loads w spec before after
    go none e k = cc
    go (some (name, path)) e k = elim (Option-cases (w.read_file path)) [
      | inl r ↦ absurd (ground arith)
      | inr (content, r) ↦ record {
        name = name;
        path = path;
        content = content;
        splits = e;
        named = λ q. ground (arith, str_eq_iff name []);
        located = λ q. ground (arith, str_eq_iff path []);
        reads = r;
        fresh = ground arith;
        adds = ground arith;
      }
    ]

record Loaded (w : World) (specs : List Str) (before after : Slots) : Type 0 where
  read : (spec : Str) → In spec specs → Read w after spec
  kept : Extends before after
  unique : Unique before → Unique after
  counted : length after ≡ length before + length specs

load_slots-Loaded :
    (w : World) (specs : List Str) (before after : Slots)
    → load_slots w specs before ≡ ok after
    → Loaded w specs before after
unfolding load_slots
load_slots-Loaded w [] before after h = subst (Loaded w [] before) (ok-injective h) (record {
  read = λ spec i. elim i [ ];
  kept = λ name content k. k;
  unique = λ u. u;
  counted = omega arith;
})
load_slots-Loaded w (spec ∷ specs) before after h =
    let (between, first, rest) =
      >>=-eq-ok (load_slot w spec (cut spec) before) (load_slots w specs) h in
    let l = load_slot-Loads w spec before between first in
    let r = load_slots-Loaded w specs between after rest in
    record {
      read = λ s i. elim (In-cases i) [
        | inl p ↦ subst (Read w after) (sym p) (record {
          name = l.name;
          path = l.path;
          content = l.content;
          splits = l.splits;
          named = l.named;
          located = l.located;
          reads = l.reads;
          holds =
              r.kept l.name l.content (rw l.adds (slot-append_new before l.name l.content l.fresh));
        })
        | inr j ↦ r.read s j
      ];
      kept = λ name content k.
          r.kept name content (rw l.adds (Extends-append before l.name l.content name content k));
      unique = λ u. r.unique (rw l.adds (Unique-append before l.name l.content l.fresh u));
      counted =
          omega
            (arith, r.counted, ap length l.adds, length-append before ((l.name, l.content) ∷ []));
    }

-- The slots after a successful `buildPayloads`: the standard input under `stdin` if it was asked
-- for, each spec's file under the name that it gives, no name twice, and nothing else.
pub record Payloads (w : World) (p : Parsed) (m : Slots) : Type 0 where
  pub stdin :
      p.stdin ≡ true
      → (content : Str) × (w.stdin ≡ some content) × (slot (text "stdin") m ≡ some content)
  pub files : (spec : Str) → In spec p.payloads → Read w m spec
  pub unique : Unique m
  pub counted : length m ≡ (if p.stdin then 1 else 0) + length p.payloads

from_stdin :
    (w : World) (p : Parsed) (m slots : Slots) (b : Bool) (o : Option Str)
    → p.stdin ≡ b
    → w.stdin ≡ o
    → stdin_slots b o ≡ ok slots
    → Loaded w p.payloads slots m
    → Payloads w p m
unfolding slot str_eq
from_stdin w p m slots false o e f h l = record {
  stdin = λ q. cc;
  files = l.read;
  unique = l.unique (rw (← ok-injective h) tt);
  counted = rw e (omega (arith, l.counted, ap length (ok-injective h)));
}
from_stdin w p m slots true none e f h l = cc
from_stdin w p m slots true (some content) e f h l = record {
  stdin = λ q. (content, f, l.kept (text "stdin") content (rw (← ok-injective h)));
  files = l.read;
  unique = l.unique (rw (← ok-injective h) (refl, tt));
  counted = rw e (omega (arith, l.counted, ap length (ok-injective h)));
}

-- A call of `build_payloads` that succeeds has read exactly what the flags name.
pub build_payloads-Payloads :
    (w : World) (p : Parsed) (m : Slots) → build_payloads w p ≡ ok m → Payloads w p m
unfolding build_payloads
build_payloads-Payloads w p m h =
    let (slots, first, rest) =
      >>=-eq-ok (stdin_slots p.stdin w.stdin) (load_slots w p.payloads) h in
    from_stdin w p m slots p.stdin w.stdin refl refl first
      (load_slots-Loaded w p.payloads slots m rest)
