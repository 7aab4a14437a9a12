-- ===== src/Control/Services.antt =====
-- Which methods of a Go value are served: controller/service/service.go, and `APIFunction` of
-- controller/common/common.go, which finds the method again by its name.
pub mod Resolves
use my_raft.Base.{
  ℕ, zero, suc, ◌+◌, ◌==◌, leb, Bool, true, false, not, ◌&&◌, ◌||◌, Option, none, some, List, [],
  ◌∷◌, ◌++◌, length, replicate, Bytes, get_elem?, if◌then◌else◌, ◌>>=◌,
}
use my_raft.Base.Split.{split}
use my_raft.Base.Assoc.{bytes_key, lookup, insert}

-- A method of a type, as reflection shows it: `inputs` counts the receiver, `pointer` is the kind of
-- the third input.
pub record Method : Type 0 where
  pub name : Bytes
  pub exported : Bool
  pub inputs : ℕ
  pub pointer : Bool
  pub outputs : ℕ

-- A value as reflection shows it: the name of its type, whether it is a struct, its methods and its fields.
mutual
  pub data Value : Type 0 where
    value : Bytes → Bool → List Method → Fields → Value

  pub data Fields : Type 0 where
    none_left : Fields
    field : Value → Fields → Fields

pub record Service : Type 0 where
  pub name : Bytes
  pub methods : List (Bytes × Method)
  pub svc_method_name : List Bytes

-- The method is not passed over.
abbrev pub is_handler : Method → Bool
is_handler m =
    not (not m.exported || (not (m.inputs == 3) || (not m.pointer || not (m.outputs == 0))))

-- `strings.Join([]string{vrc.Type().Name(), vrcmethod.Name}, ".")`
abbrev pub full_name : Bytes → Bytes → Bytes
full_name typ name = typ ++ b'.' ∷ name

-- The loop over the methods.
unfoldable pub collect : Bytes → List Method → Service → Service
collect typ [] s = s
collect typ (m ∷ ms) s =
    if is_handler m
    then collect typ ms (record s {
      methods = insert m.name m s.methods;
      svc_method_name = s.svc_method_name ++ full_name typ m.name ∷ [];
    })
    else collect typ ms s

-- `methodFullNames` begins with an empty text for each method.
abbrev pub service_of : Bytes → List Method → Service
service_of typ ms =
    collect typ ms (record { name = typ; methods = []; svc_method_name = replicate (length ms) [] })

abbrev pub some_methods : Service → Bool
some_methods s = not (length s.methods == 0)

-- What one value adds.
unfoldable pub add_value : Value → List (Bytes × Service) → List (Bytes × Service)
unfolding collect
add_value (value typ false ms fs) svces = svces
add_value (value typ true ms fs) svces =
    let s = service_of typ ms in if some_methods s then insert typ s svces else svces

abbrev is_struct : Value → Bool
is_struct (value typ s ms fs) = s

-- The fields that are structs, behind the values that wait for the next depth; the channel has room for 16.
unfoldable pub push_fields : Fields → List Value → Option (List Value)
push_fields none_left waiting = some waiting
push_fields (field v fs) waiting =
    if is_struct v
    then (if leb 16 (length waiting) then none else push_fields fs (waiting ++ v ∷ []))
    else push_fields fs waiting

abbrev push_value : Bool → Value → List Value → Option (List Value)
push_value deeper (value typ s ms fs) waiting =
    if s && deeper then push_fields fs waiting else some waiting

-- One depth: the services, and what waits for the next.
unfoldable pub visit :
    Bool
    → List Value
    → List Value
    → List (Bytes × Service)
    → Option (List Value × List (Bytes × Service))
unfolding add_value push_fields
visit deeper [] waiting svces = some (waiting, svces)
visit deeper (v ∷ vs) waiting svces = do
  waiting ← push_value deeper v waiting
  visit deeper vs waiting (add_value v svces)

-- `left` counts the depths after this one. `none` is the send that waits for ever on a full channel.
unfoldable pub visit_depths :
    ℕ → List Value → List (Bytes × Service) → Option (List (Bytes × Service))
unfolding visit
visit_depths zero vs svces = do (_, svces) ← visit false vs [] svces; some svces
visit_depths (suc left) vs svces = do
  (waiting, svces) ← visit true vs [] svces
  visit_depths left waiting svces

unfoldable pub make_service : Value → ℕ → Option (List (Bytes × Service))
unfolding visit_depths
make_service rcvr max_depth = visit_depths max_depth (rcvr ∷ []) []

-- The method that `APIFunction` binds; `none` is the panic where the name has no dot or there is no such
-- service or method.
unfoldable pub api_function : Bytes → List (Bytes × Service) → Option (Service × Method)
api_function full ms = do
  let parts = split full (b'.' ∷ [])
  typ ← get_elem? parts 0
  s ← lookup typ ms
  name ← get_elem? parts 1
  m ← lookup name s.methods
  some (s, m)
