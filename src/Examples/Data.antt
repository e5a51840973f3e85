-- ===== src/Examples/Data.antt =====
-- Concrete data: a request inside organisation 1, a database with one run under way, and whole
-- numbers of thousandths in the place of the floating point numbers.
use Prim.Native.Nat.{◌/◌, min, max}
use runboard.Prelude.{
  ℤ, is_zero, false, ap, ◌≡◌, if◌then◌else◌, ℕ, ◌*◌, ◌≤◌, ◌<◌, pos, pos_part, Option, none, some,
  [], ◌∷◌, arith,
}
use runboard.Schema.{Db, Role, CasePriority, RunStatus, RunCaseResult, TestRun, TestRunCase}
use runboard.Context.{RequestContext}
use runboard.Floats.{Floats}

pub per_mille-le : (a b : ℕ) → a ≤ b → 0 < b → a * 1000 / b ≤ 1000
per_mille-le a b h p = grind arith

-- `none` is NaN.
abbrev Thousandths : Type 0
Thousandths = Option ℕ

abbrev divided : ℤ → ℤ → Thousandths
divided a b = if is_zero b then none else some (pos_part a * 1000 / pos_part b)

abbrev both : (ℕ → ℕ → ℕ) → Thousandths → Thousandths → Thousandths
both f none b = none
both f (some a) none = none
both f (some a) (some b) = some (f a b)

abbrev IsSome : Thousandths → Type 0
IsSome none = ⊥
IsSome (some a) = Unit

abbrev AtMost : Thousandths → Thousandths → Type 0
AtMost none b = ⊥
AtMost (some a) none = ⊥
AtMost (some a) (some b) = a ≤ b

pub divided-IsSome : (a b : ℤ) → is_zero b ≡ false → IsSome (divided a b)
divided-IsSome a b h = rw h tt

pub max-IsSome : (a b : Thousandths) → IsSome a → IsSome b → IsSome (both max a b)
max-IsSome none b h k = h
max-IsSome (some a) none h k = k
max-IsSome (some a) (some b) h k = tt

pub min-AtMost : (a b : Thousandths) → IsSome a → IsSome b → AtMost (both min a b) a
min-AtMost none b h k = h
min-AtMost (some a) none h k = k
min-AtMost (some a) (some b) h k = omega arith

pub AtMost-min : (a b c : Thousandths) → AtMost c a → AtMost c b → AtMost c (both min a b)
AtMost-min a b none h k = h
AtMost-min none b (some c) h k = h
AtMost-min (some a) none (some c) h k = k
AtMost-min (some a) (some b) (some c) h k = omega arith

pub AtMost-max : (a b : Thousandths) → IsSome a → IsSome b → AtMost a (both max a b)
AtMost-max none b h k = h
AtMost-max (some a) none h k = k
AtMost-max (some a) (some b) h k = omega arith

pub min_of_AtMost : (a b : Thousandths) → AtMost b a → both min a b ≡ b
min_of_AtMost a none h = absurd h
min_of_AtMost none (some b) h = absurd h
min_of_AtMost (some a) (some b) h = ap some (omega arith)

pub max_of_AtMost : (a b : Thousandths) → AtMost a b → both max a b ≡ b
max_of_AtMost none b h = absurd h
max_of_AtMost (some a) none h = absurd h
max_of_AtMost (some a) (some b) h = ap some (omega arith)

pub nonzero : (b : ℕ) → 0 < b → is_zero (pos b) ≡ false
nonzero b h = ground arith

abbrev pub thousandths : Floats
thousandths = record {
  Float = Thousandths;
  zero = some 0;
  one = some 1000;
  divide = divided;
  min = both min;
  max = both max;
  IsNumber = IsSome;
  zero-IsNumber = tt;
  one-IsNumber = tt;
  divide-IsNumber = divided-IsSome;
  max-IsNumber = max-IsSome;
  Le = AtMost;
  zero-le-zero = omega arith;
  zero-le-one = omega arith;
  min-le_left = min-AtMost;
  le-min = AtMost-min;
  le-max_left = AtMost-max;
  min_of_le = min_of_AtMost;
  max_of_le = max_of_AtMost;
  zero-le-divide = λ a b h. rw (nonzero b h) (omega arith);
  divide-le-one = λ a b h p. rw (nonzero b p) (per_mille-le a b h p);
}

abbrev pub tester_context : Option RequestContext
tester_context = some (record {
  user_id = some 7;
  actor_email = some "t@example.com";
  organization_id = some 1;
  role = some Role.tester;
  ip = none;
  user_agent = none;
})

abbrev pub run_case_of : ℕ → ℕ → RunCaseResult → TestRunCase
run_case_of id run_id result = record {
  id = id;
  organization_id = 1;
  test_run_id = run_id;
  source_case_id = none;
  title = "Log in";
  steps = [];
  expected_result = "The dashboard";
  priority = CasePriority.high;
  result = result;
  comment = none;
  recorded_by_id = none;
  recorded_at = none;
  position = 0;
}

abbrev pub run_of : ℕ → RunStatus → ℕ → ℕ → TestRun
run_of id status total failed = record {
  id = id;
  organization_id = 1;
  name = "Release";
  description = none;
  status = status;
  created_by_id = 7;
  started_at = none;
  completed_at = none;
  updated_at = 0;
  total_count = pos total;
  passed_count = pos 0;
  failed_count = pos failed;
  blocked_count = pos 0;
  skipped_count = pos 0;
}

abbrev pub one_run : Db
one_run = record {
  users = record { id = 7; email = "t@example.com"; password_hash = "x"; name = "Tess" } ∷ [];
  refresh_tokens = [];
  organizations = [];
  memberships = record { id = 70; organization_id = 1; user_id = 7; role = Role.admin } ∷ [];
  invitations = [];
  suites = [];
  cases = [];
  runs =
      record (run_of 20 RunStatus.in_progress 2 1) { started_at = some 5 }
      ∷ run_of 21 RunStatus.planned 0 0
      ∷ [];
  run_cases = run_case_of 30 20 RunCaseResult.fail ∷ run_case_of 31 20 RunCaseResult.pending ∷ [];
  assignees = [];
  bugs = [];
  audit_logs = [];
}
