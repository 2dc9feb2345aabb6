-- ===== src/Examples/Sample.antt =====
-- Data that the runs share: whole numbers as floats, a codec of three sets, and a host that starts a
-- healthy child.
use runed.Prelude.{
  ℕ, ◌+◌, ◌*◌, ◌%◌, ◌^◌, ◌<◌, ◌≡◌, refl, ◌⊎◌, inl, inr, arith, Bool, true, false, [], ◌∷◌, some,
  Bytes, ltb, leb, ◌-◌, Bool-cases, if◌then◌else◌,
}
use runed.Route.Floats.{Floats, IsIeee}
use runed.Backend.Child.Ready.{IsTimely}
use runed.Backend.Host.{Host, port_line, poll_tick, poll_deadline, exit_done, response}

-- The floats 0.0 and 1.0, and whole numbers as doubles: n + 1 is n, and 0 the negative infinity.
abbrev pub whole : Floats
whole = record {
  F32 = Bool;
  F64 = ℕ;
  widen = λ x. if x then 2 else 1;
  zero64 = 1;
  neg_inf = 0;
  add = λ x y. x + y - 1;
  mul = λ x y. (x - 1) * (y - 1) + 1;
  gtb = λ x y. ltb y x;
  is_nan = λ x. false;
  bits = λ x. if x then 0x3f800000 else 0;
}

gtb_split : (x y z : ℕ) → ltb z x ≡ true → (ltb y x ≡ true) ⊎ (ltb z y ≡ true)
gtb_split x y z h = elim (Bool-cases (ltb y x)) [ inl e ↦ inl e | inr e ↦ inr (ground arith) ]

bits_injective : (x y : Bool) → whole.bits x ≡ whole.bits y → x ≡ y
bits_injective true true e = refl
bits_injective true false e = absurd (omega arith)
bits_injective false true e = absurd (omega arith)
bits_injective false false e = refl

bits_bounded : (x : Bool) → whole.bits x < 2 ^ 32
bits_bounded true = omega arith
bits_bounded false = omega arith

pub whole-IsIeee : IsIeee whole
whole-IsIeee = record {
  gtb_asym = λ x y h. ground arith;
  gtb_trans = λ x y z h k. ground arith;
  gtb_split = λ x y z n h. gtb_split x y z h;
  neg_inf_least = λ x. ground arith;
  neg_inf_number = refl;
  bits_bounded = bits_bounded;
  bits_injective = bits_injective;
}

-- A digest of one byte.
abbrev pub short_hash : Bytes → Bytes
short_hash [] = 0 ∷ []
short_hash (b ∷ bs) = (b % 256) ∷ []

-- The host's world is its clock. The child answers from the first second on, and its starts all give
-- the command 7.
abbrev pub clock_host : Host
clock_host = record {
  World = ℕ;
  now = λ w. record { value = w; events = []; world = w };
  ctx_err = λ w. record { value = false; events = []; world = w };
  get_health = λ host port d w. record { value = leb 1000000000 w; events = []; world = w };
  open_pipe = λ w. record { value = true; events = []; world = w };
  start_cmd = λ args cfg w. record { value = some 7; events = []; world = w };
  await_port = λ pid w. record { value = port_line 8080; events = []; world = w };
  await_poll = λ pid deadline w.
      if ltb w deadline
      then record { value = poll_tick; events = []; world = w + 200000000 }
      else record { value = poll_deadline; events = []; world = w };
  await_exit = λ pid c w. record { value = exit_done; events = []; world = w };
  post = λ host port path body w. record { value = response 200 body; events = []; world = w };
  wait_lock = λ b w. (b, w);
}

pub clock_host-IsTimely : IsTimely clock_host
clock_host-IsTimely = record {
  time = λ w. w;
  now_reads = λ w. (refl, omega arith);
  probe_forward = λ host port d w. omega arith;
  tick = λ pid deadline w h. ground arith;
}
