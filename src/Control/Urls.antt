-- ===== src/Control/Urls.antt =====
-- URLs, the methods that a controller of controller/ binds to them, and the routes of its HTTP server.
pub mod Tables
pub mod Reaches
pub mod Between
pub mod Master
use my_raft.Base.{
  ℕ, zero, suc, ◌+◌, ◌/◌, ◌%◌, ◌==◌, ltb, Bool, true, false, ◌&&◌, Option, none, some, List, [],
  ◌∷◌, ◌++◌, Bytes, if◌then◌else◌,
}
use my_raft.Base.Assoc.{bytes_key, eq_bytes, lookup, insert}
use Prim.Native.Char.{code}
use Prim.Native.String.{String}

-- A text constant, as the list of its bytes.
abbrev pub codes : String → Bytes
codes String.[] = []
codes (String.◌∷◌ c s) = code c ∷ codes s

-- `strconv.Itoa` of a number that is not negative; `k` bounds the number of digits.
unfoldable pub digits : ℕ → ℕ → Bytes → Bytes
digits zero n s = s
digits (suc k) n s =
    let rest = digits k (n / 10) ((b'0' + n % 10) ∷ s) in if ltb n 10 then (b'0' + n) ∷ s else rest

abbrev pub itoa : ℕ → Bytes
itoa n = digits (suc n) n []

-- `strings.Join([]string{addr, strconv.Itoa(port)}, ":")`
abbrev pub full_addr : Bytes → ℕ → Bytes
full_addr addr port = addr ++ b':' ∷ itoa port

-- The fields of `url.URL` that are used.
pub record Url : Type 0 where
  pub scheme : Bytes
  pub host : Bytes
  pub path : Bytes

abbrev pub http : Bytes → Bytes → Url
http host path = record { scheme = codes "http"; host = host; path = path }

abbrev pub Bound : Type 0
Bound = List (Bytes × Url)

-- `baseURL.Path = path; c.BoundMethods[name] = baseURL`, for each pair.
unfoldable pub bind_all : Bytes → List (Bytes × Bytes) → Bound → Bound
bind_all host [] m = m
bind_all host ((name, path) ∷ ps) m = bind_all host ps (insert name (http host path) m)

-- `c.BoundMethods[name]`: a URL without a path where there is none.
abbrev pub bound_url : Bytes → Bound → Url
bound_url name m = elim (lookup name m) [
  | none ↦ record { scheme = []; host = []; path = [] }
  | some u ↦ u
]

-- `for k, url := range c.BoundMethods { url.Host = host; methods[k] = url }`
unfoldable pub rehost : Bytes → Bound → Bound
rehost host [] = []
rehost host ((name, u) ∷ m) = (name, record u { host = host }) ∷ rehost host m

pub data Verb : Type 0 where
  get post : Verb

abbrev eq_verb : Verb → Verb → Bool
eq_verb get get = true
eq_verb post post = true
eq_verb _ _ = false

-- A handler goes by the name of the function that makes it, or, where that is `APIFunction`, by the method
-- that it calls.
pub record Route : Type 0 where
  pub verb : Verb
  pub path : Bytes
  pub handler : Bytes

-- The path of a request: a path that does not begin with a slash gets one.
abbrev pub slashed : Bytes → Bytes
slashed [] = b'/' ∷ []
slashed (c ∷ s) = if c == b'/' then c ∷ s else b'/' ∷ c ∷ s

-- `c.Ec.POST("/"+c.BoundMethods[name].Path, handler)`
abbrev pub on : Verb → (name handler : Bytes) → Bound → Route
on verb name handler m = record {
  verb = verb;
  path = b'/' ∷ (bound_url name m).path;
  handler = handler;
}

-- `for _, val := range names { if v, ok := c.BoundMethods[val]; ok { c.Ec.POST("/"+v.Path, ...) } }`
unfoldable pub serve : List Bytes → Bound → List Route
serve [] m = []
serve (name ∷ names) m = elim (lookup name m) [
  | none ↦ serve names m
  | some u ↦ record { verb = post; path = b'/' ∷ u.path; handler = name } ∷ serve names m
]

-- The handler of the route for a request.
unfoldable pub dispatch : Verb → Bytes → List Route → Option Bytes
dispatch verb path [] = none
dispatch verb path (r ∷ rs) =
    if eq_verb r.verb verb && eq_bytes r.path path then some r.handler else dispatch verb path rs
