-- ===== src/Tests/Machine.antt =====
-- A host, floating-point operations and a machine to run the tests on.
use open_scm.Prelude.{◌+◌, ◌-◌, ◌*◌, ◌%◌, ◌^◌, refl, true, arith, ◌==◌, ltb}
use open_scm.Prelude.Decimal.{atoi, print_int}
use open_scm.Vm.{Value, create}
use open_scm.Vm.Floats.{FloatOps}
use open_scm.Vm.Ops.Hosted.{Host}
use open_scm.Vm.Valid.{IsValid, HostKeeps}

-- Whole numbers stand for floats here.
abbrev pub whole_floats : FloatOps
whole_floats = record {
  of_int = λ i. i;
  to_int = λ f. f;
  zero_bits = 0;
  add = λ x y. (x + y) % 2 ^ 32;
  sub = λ x y. (x + 2 ^ 32 - y) % 2 ^ 32;
  mul = λ x y. x * y % 2 ^ 32;
  div = λ x y. x;
  eq = λ x y. x == y;
  lt = λ x y. ltb x y;
  sin = λ x. x;
  cos = λ x. x;
  tan = λ x. x;
  sqrt = λ x. x;
  floor = λ x. x;
  ceil = λ x. x;
  round = λ x. x;
  abs = λ x. x;
  atan2 = λ x y. x;
  pow = λ x y. x;
  parse = λ s. atoi s;
  print = λ f. print_int f;
}

-- Every function returns its number and makes the machine's flag for the end `true`.
abbrev pub stopping_host : Host
stopping_host = record {
  call = λ fn user vm args. record {
    success = true;
    ret = Value.int fn;
    vm = record vm { halted = true };
  };
  resolve = λ resolver user vm name args. record {
    success = true;
    ret = Value.int resolver;
    vm = record vm { halted = true };
  };
}

pub stopping_host-HostKeeps : HostKeeps stopping_host
stopping_host-HostKeeps = record {
  call_keeps = λ fn user vm args v. v;
  resolve_keeps = λ resolver user vm name args v. v;
}

pub create-IsValid : IsValid create
unfolding create
create-IsValid = record {
  stack_fits = omega arith;
  globals_fit = omega arith;
  calls_fit = omega arith;
  frames_fit = tt;
  heap_size = refl;
  registry = record { entries = omega arith; handlers = tt };
  places = refl;
  head_in = omega arith;
  tail_in = omega arith;
  natives_fit = omega arith;
  modules_fit = omega arith;
}
