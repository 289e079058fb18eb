-- ===== src/Limits.antt =====
-- src/runtime/limits.rs: how much one call into an app may use. Numbers are u64, below 2 ^ 64; a
-- `usize` is as wide, so that bytes of memory saturate there. The environment is a function from names
-- to what is set.
mod Tests
pub mod Granted
use toolsite.Common.{
  ℕ, ◌+◌, ◌-◌, ◌*◌, ◌^◌, Bool, true, false, not, ◌&&◌, ◌||◌, Option, none, some, List, [], ◌∷◌,
  ◌++◌, map, min, leb, ltb, ◌==◌, if◌then◌else◌, Text, codes, same, all, any, is_some, map_option,
  trim, ◌⊎◌, inl, inr,
}

abbrev pub mib : ℕ
mib = 1048576

abbrev pub u64_max : ℕ
u64_max = 18446744073709551615

-- What an app gets without asking.
abbrev pub default_request_fuel : ℕ
default_request_fuel = 200000000

abbrev pub default_request_seconds : ℕ
default_request_seconds = 5

abbrev pub default_request_memory_mb : ℕ
default_request_memory_mb = 64

abbrev pub default_job_fuel : ℕ
default_job_fuel = 2000000000

abbrev pub default_job_seconds : ℕ
default_job_seconds = 60

abbrev pub default_job_memory_mb : ℕ
default_job_memory_mb = 128

abbrev pub default_query_rows : ℕ
default_query_rows = 1000

pub record Ceilings : Type 0 where
  pub request_fuel : Option ℕ
  pub request_seconds : ℕ
  pub job_fuel : Option ℕ
  pub job_seconds : ℕ
  pub query_rows : ℕ
  pub memory_mb : ℕ

abbrev pub default_ceilings : Ceilings
default_ceilings = record {
  request_fuel = some (10 * default_request_fuel);
  request_seconds = 60;
  job_fuel = some (50 * default_job_fuel);
  job_seconds = 15 * 60;
  query_rows = 50000;
  memory_mb = 1024;
}

pub record Asked : Type 0 where
  pub request_fuel : Option ℕ
  pub request_seconds : Option ℕ
  pub job_fuel : Option ℕ
  pub job_seconds : Option ℕ
  pub query_rows : Option ℕ
  pub memory_mb : Option ℕ

abbrev pub asked_nothing : Asked
asked_nothing = record {
  request_fuel = none;
  request_seconds = none;
  job_fuel = none;
  job_seconds = none;
  query_rows = none;
  memory_mb = none;
}

-- `Asked::fields`.
abbrev pub fields : Asked → List (Text × Option ℕ)
fields a =
    (codes "request_fuel", a.request_fuel)
    ∷ (codes "request_seconds", a.request_seconds)
    ∷ (codes "job_fuel", a.job_fuel)
    ∷ (codes "job_seconds", a.job_seconds)
    ∷ (codes "query_rows", a.query_rows)
    ∷ (codes "memory_mb", a.memory_mb)
    ∷ []

abbrev pub is_zero : Option ℕ → Bool
is_zero none = false
is_zero (some n) = n == 0

-- The name of the first field that is zero.
abbrev pub first_zero : List (Text × Option ℕ) → Option Text
first_zero [] = none
first_zero ((name, value) ∷ rest) = if is_zero value then some name else first_zero rest

-- `none` where `check` passes.
unfoldable pub check : Asked → Option Text
check a = first_zero (fields a)

unfoldable pub is_empty : Asked → Bool
is_empty a = all (λ f. not (is_some f.1)) (fields a)

pub record Guards : Type 0 where
  pub fuel : Option ℕ
  pub memory_bytes : ℕ
  pub seconds : ℕ
  pub query_rows : ℕ

pub record Effective : Type 0 where
  pub request : Guards
  pub job : Guards

abbrev pub or_default : Option ℕ → ℕ → ℕ
or_default none d = d
or_default (some n) d = n

abbrev pub fuel_of : Option ℕ → ℕ → Option ℕ → Option ℕ
fuel_of asked default none = none
fuel_of asked default (some ceiling) = some (min (or_default asked default) ceiling)

abbrev pub bytes_of : Option ℕ → ℕ → ℕ → ℕ
bytes_of asked default ceiling = min (min (or_default asked default) ceiling * mib) u64_max

unfoldable pub effective : Ceilings → Option Asked → Effective
effective c asked =
    let a = elim asked as (λ _. Asked) [ none ↦ asked_nothing | some a ↦ a ] in
    let rows = min (or_default a.query_rows default_query_rows) c.query_rows in
    record {
      request = record {
        fuel = fuel_of a.request_fuel default_request_fuel c.request_fuel;
        memory_bytes = bytes_of a.memory_mb default_request_memory_mb c.memory_mb;
        seconds = min (or_default a.request_seconds default_request_seconds) c.request_seconds;
        query_rows = rows;
      };
      job = record {
        fuel = fuel_of a.job_fuel default_job_fuel c.job_fuel;
        memory_bytes = bytes_of a.memory_mb default_job_memory_mb c.memory_mb;
        seconds = min (or_default a.job_seconds default_job_seconds) c.job_seconds;
        query_rows = rows;
      };
    }

-- A line of the deploy's report.
pub data Note : Type 0 where
  allows : Text → ℕ → ℕ → Note
  unmetered : Text → ℕ → Note

abbrev pub note : Text → Option ℕ → Option ℕ → List Note
note name none ceiling = []
note name (some value) none = unmetered name value ∷ []
note name (some value) (some ceiling) =
    if ltb ceiling value then allows name value ceiling ∷ [] else []

abbrev pub notes : List (Text × Option ℕ) → List (Option ℕ) → List Note
notes [] ceilings = []
notes (f ∷ fs) [] = []
notes (f ∷ fs) (ceiling ∷ ceilings) = note f.0 f.1 ceiling ++ notes fs ceilings

unfoldable pub clamped : Ceilings → Asked → List Note
clamped c a = notes (fields a) (
    c.request_fuel
    ∷ some c.request_seconds
    ∷ c.job_fuel
    ∷ some c.job_seconds
    ∷ some c.query_rows
    ∷ some c.memory_mb
    ∷ [])

-- `str::parse::<u64>`: digits, one at least, after one plus sign at most.
abbrev pub digits_from : ℕ → Text → Option ℕ
digits_from n [] = some n
digits_from n (c ∷ s) =
    if leb 48 c && leb c 57 && leb (n * 10 + (c - 48)) u64_max
    then digits_from (n * 10 + (c - 48)) s
    else none

abbrev pub digits : Text → Option ℕ
digits [] = none
digits (c ∷ s) = digits_from 0 (c ∷ s)

abbrev pub parse_u64 : Text → Option ℕ
parse_u64 [] = none
parse_u64 (c ∷ s) = if c == 43 then digits s else digits (c ∷ s)

abbrev lower : ℕ → ℕ
lower c = if leb 65 c && leb c 90 then c + 32 else c

-- A whole number above 0, or the name of the variable that is none.
abbrev pub positive : Text → Option ℕ → Text ⊎ ℕ
positive name none = inl name
positive name (some n) = if n == 0 then inl name else inr n

abbrev pub whole : Text → ℕ → Option Text → Text ⊎ ℕ
whole name default none = inr default
whole name default (some value) = positive name (parse_u64 (trim value))

abbrev pub number : Text → Option ℕ → Text ⊎ Option ℕ
number name none = inl name
number name (some n) = inr (some n)

abbrev pub fuel_ceiling : Text → Option ℕ → Option Text → Text ⊎ Option ℕ
fuel_ceiling name default none = inr default
fuel_ceiling name default (some value) =
    if same (map lower (trim value)) (codes "none") || same (trim value) (codes "0")
    then inr none
    else number name (parse_u64 (trim value))

infixl 5 ◌>>=◌
abbrev pub ◌>>=◌ : {A B : Type 0} → Text ⊎ A → (A → Text ⊎ B) → Text ⊎ B
inl name >>= f = inl name
inr a >>= f = f a

unfoldable pub from_env : (Text → Option Text) → Text ⊎ Ceilings
unfolding trim
from_env read = do
  request_fuel ←
      fuel_ceiling (codes "TOOLSITE_MAX_REQUEST_FUEL") default_ceilings.request_fuel
        (read (codes "TOOLSITE_MAX_REQUEST_FUEL"))
  request_seconds ←
      whole (codes "TOOLSITE_MAX_REQUEST_SECONDS") default_ceilings.request_seconds
        (read (codes "TOOLSITE_MAX_REQUEST_SECONDS"))
  job_fuel ←
      fuel_ceiling (codes "TOOLSITE_MAX_JOB_FUEL") default_ceilings.job_fuel
        (read (codes "TOOLSITE_MAX_JOB_FUEL"))
  job_seconds ←
      whole (codes "TOOLSITE_MAX_JOB_SECONDS") default_ceilings.job_seconds
        (read (codes "TOOLSITE_MAX_JOB_SECONDS"))
  query_rows ←
      whole (codes "TOOLSITE_MAX_QUERY_ROWS") default_ceilings.query_rows
        (read (codes "TOOLSITE_MAX_QUERY_ROWS"))
  memory_mb ←
      whole (codes "TOOLSITE_MAX_MEMORY_MB") default_ceilings.memory_mb
        (read (codes "TOOLSITE_MAX_MEMORY_MB"))
  inr (record {
    request_fuel = request_fuel;
    request_seconds = request_seconds;
    job_fuel = job_fuel;
    job_seconds = job_seconds;
    query_rows = query_rows;
    memory_mb = memory_mb;
  })
