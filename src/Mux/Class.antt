-- ===== src/Mux/Class.antt =====
-- `Class` of crates/weaver-mux/src/sched/mod.rs, a key of the scheduler's top level.
use tunnel_weaver.Base.{◌≡◌, ◌↔◌, Bool, true, false, Eq, arith}

pub data Class : Type 0 where
  control realtime interactive bulk : Class

unfoldable pub class_beq : Class → Class → Bool
class_beq Class.control Class.control = true
class_beq Class.realtime Class.realtime = true
class_beq Class.interactive Class.interactive = true
class_beq Class.bulk Class.bulk = true
class_beq _ _ = false

pub class_beq_iff : (a b : Class) → (class_beq a b ≡ true) ↔ (a ≡ b)
unfolding class_beq
class_beq_iff a b = ground arith

instance abbrev pub class_eq : Eq Class
class_eq = record { beq = class_beq; beq_iff = class_beq_iff }
