-- ===== src/Tests/Wire.antt =====
-- A JSON library in small, which has what the wire format of src/protocol.rs relies on, and the
-- theorems of the format at concrete messages.
use fleetcom.Common.{
  ℕ, zero, suc, ◌<◌, ◌≤◌, ◌^◌, ◌≡◌, refl, sym, ap, ◌∙◌, Bool, true, false, Option, none, some, List,
  [], ◌∷◌, ◌++◌, append-nil, append_assoc, length, length-append, take, drop, take_all, drop_all,
  ltb, ◌||◌, if◌then◌else◌, arith, ◌==◌, inl,
}
use fleetcom.Text.{Text, text, text_eq, utf8}
use fleetcom.Protocol.Wire.{Jzon, nth}
use fleetcom.Protocol.{
  Command, Event, LaunchContext, mouse, drag, MouseBtn, clipboard_copy, clipboard, resize, wheel_up,
}
use fleetcom.Harness.{registered, is_uuid}
use fleetcom.Session.{SessionEntry, SessionConfig, literal, managed}
use fleetcom.Session.Codec.{Checked, from_json, to_json}
use fleetcom.Session.Safety.{RecipeValid, from_json-RecipeValid, marks, all_marks}
use fleetcom.Session.RoundTrip.{from_json-to_json}
use fleetcom.Protocol.Encode.{encode_command, encode_event, encode_hello, protocol_version}
use fleetcom.Protocol.Decode.{decode_command}
use fleetcom.Protocol.Decode.Events.{decode_event, decode_hello, hello_version}
use fleetcom.Protocol.Refusals.{if_both, decode_command-refuses}
use fleetcom.Protocol.RoundTrip.{decode_command-encode_command}
use fleetcom.Protocol.RoundTrip.Events.{wired, decode_event-encode_event, decode_hello-encode_hello}

-- Arrays and objects are chains of their elements and fields.
data Json : Type 0 where
  null empty_array empty_object : Json
  boolean : Bool → Json
  number : ℕ → Json
  string : Text → Json
  element : Json → Json → Json
  field : Text → Json → Json → Json

array : List Json → Json
array [] = empty_array
array (v ∷ vs) = element v (array vs)

members : Json → List Json
members (element v w) = v ∷ members w
members empty_array = []
members other = []

members-array : (vs : List Json) → members (array vs) ≡ vs
unfolding members array
members-array [] = refl
members-array (v ∷ vs) = ap (v ∷◌) (members-array vs)

get : Json → Text → Json
get (field k v o) i = if text_eq k i then v else get o i
get null i = null
get other i = null

is_array : Json → Bool
is_array empty_array = true
is_array (element v w) = true
is_array other = false

is_array-array : (vs : List Json) → is_array (array vs) ≡ true
unfolding is_array array
is_array-array [] = refl
is_array-array (v ∷ vs) = refl

is_object : Json → Bool
is_object empty_object = true
is_object (field k v o) = is_object o
is_object other = false

has_key : Json → Text → Bool
has_key (field k v o) i = text_eq k i || has_key o i
has_key null i = false
has_key other i = false

entries : Json → List (Text × Json)
entries (field k v o) = entries o ++ (k, v) ∷ []
entries null = []
entries other = []

is_object-array : (vs : List Json) → is_object (array vs) ≡ false
unfolding is_object array
is_object-array [] = refl
is_object-array (v ∷ vs) = refl

as_str : Json → Option Text
as_str (string s) = some s
as_str null = none
as_str other = none

as_u64 : Json → Option ℕ
as_u64 (number n) = if ltb n (2 ^ 64) then some n else none
as_u64 null = none
as_u64 other = none

as_bool : Json → Option Bool
as_bool (boolean b) = some b
as_bool null = none
as_bool other = none

is_null : Json → Bool
is_null null = true
is_null (number n) = false
is_null other = false

as_str_of_object : (v : Json) → is_object v ≡ true → as_str v ≡ none
unfolding is_object as_str
as_str_of_object null h = refl
as_str_of_object (string s) h = cc
as_str_of_object other h = refl

-- A value as a tag and its parts, each text behind its length.
abbrev bit : Bool → ℕ
bit true = 1
bit false = 0

dump : Json → List ℕ
dump null = 0 ∷ []
dump empty_array = 1 ∷ []
dump empty_object = 2 ∷ []
dump (boolean b) = 3 ∷ bit b ∷ []
dump (number n) = 4 ∷ n ∷ []
dump (string s) = 5 ∷ length s ∷ s
dump (element v w) = 6 ∷ (dump v ++ dump w)
dump (field k v o) = 7 ∷ length k ∷ (k ++ (dump v ++ dump o))

dump_pos : (v : Json) → 0 < length (dump v)
unfolding dump
dump_pos null = omega arith
dump_pos empty_array = omega arith
dump_pos empty_object = omega arith
dump_pos (boolean b) = omega arith
dump_pos (number n) = omega arith
dump_pos (string s) = omega arith
dump_pos (element v w) = omega arith
dump_pos (field k v o) = omega arith

abbrev Read : Type 0
Read = Option (Json × List ℕ)

read_bool : List ℕ → Read
read_bool [] = none
read_bool (b ∷ rest) = some (boolean (b == 1), rest)

read_number : List ℕ → Read
read_number [] = none
read_number (n ∷ rest) = some (number n, rest)

read_string : List ℕ → Read
read_string [] = none
read_string (n ∷ rest) = some (string (take n rest), drop n rest)

-- Two values in turn, put together.
second : (Json → Json → Json) → Json → Read → Read
second make v none = none
second make v (some (w, rest)) = some (make v w, rest)

both : (List ℕ → Read) → (Json → Json → Json) → Read → Read
both rec make none = none
both rec make (some (v, rest)) = second make v (rec rest)

read_field : (List ℕ → Read) → List ℕ → Read
read_field rec [] = none
read_field rec (n ∷ rest) = both rec (field (take n rest)) (rec (drop n rest))

read_node : (List ℕ → Read) → ℕ → List ℕ → Read
unfolding read_bool read_number read_string both second read_field
read_node rec t rest =
    if t == 0
    then some (null, rest)
    else if t == 1
    then some (empty_array, rest)
    else if t == 2
    then some (empty_object, rest)
    else if t == 3
    then read_bool rest
    else if t == 4
    then read_number rest
    else if t == 5
    then read_string rest
    else if t == 6
    then both rec element (rec rest)
    else if t == 7
    then read_field rec rest
    else none

read : ℕ → List ℕ → Read
unfolding read_node
read zero bytes = none
read (suc f) [] = none
read (suc f) (t ∷ rest) = read_node (read f) t rest

whole : Read → Option Json
whole none = none
whole (some (v, rest)) = some v

parse : List ℕ → Option Json
unfolding whole read
parse bytes = whole (read (length bytes) bytes)

both-read :
    (rec : List ℕ → Read) (make : Json → Json → Json) (v w : Json) (a b rest : List ℕ)
    → rec (a ++ (b ++ rest)) ≡ some (v, b ++ rest)
    → rec (b ++ rest) ≡ some (w, rest)
    → both rec make (rec (a ++ (b ++ rest))) ≡ some (make v w, rest)
unfolding both second
both-read rec make v w a b rest e h = rw e (rw h refl)

boolean_back : (b : Bool) → boolean (bit b == 1) ≡ boolean b
boolean_back true = refl
boolean_back false = refl

read-dump :
    (f : ℕ) (v : Json) (rest : List ℕ)
    → length (dump v) ≤ f
    → read f (dump v ++ rest) ≡ some (v, rest)
unfolding read dump
read-dump zero v rest h = absurd (omega (arith, dump_pos v))
read-dump (suc f) null rest h = refl
read-dump (suc f) empty_array rest h = refl
read-dump (suc f) empty_object rest h = refl
read-dump (suc f) (boolean b) rest h = ap (λ v. some (v, rest)) (boolean_back b)
read-dump (suc f) (number n) rest h = refl
read-dump (suc f) (string s) rest h =
    ap (λ t. some (string t, drop (length s) (s ++ rest))) (take_all s rest)
    ∙ ap (λ r. some (string s, r)) (drop_all s rest)
read-dump (suc f) (element v w) rest h =
    let len = length-append (dump v) (dump w) in
    rw (append_assoc (dump v) (dump w) rest) (
      both-read (read f) element v w (dump v) (dump w) rest
        (read-dump f v (dump w ++ rest) (omega (arith, len)))
        (read-dump f w rest (omega (arith, len))))
read-dump (suc f) (field k v o) rest h =
    let len = length-append (dump v) (dump o) in
    let len_k = length-append k (dump v ++ dump o) in
    let tail = dump v ++ (dump o ++ rest) in
    let e : (k ++ (dump v ++ dump o)) ++ rest ≡ k ++ tail =
      append_assoc k (dump v ++ dump o) rest ∙ ap (k ++◌) (append_assoc (dump v) (dump o) rest) in
    rw e (
      rw (take_all k tail) (
        rw (drop_all k tail) (
          both-read (read f) (field k) v o (dump v) (dump o) rest
            (read-dump f v (dump o ++ rest) (omega (arith, len, len_k)))
            (read-dump f o rest (omega (arith, len, len_k))))))

parse-dump : (v : Json) → parse (dump v) ≡ some v
unfolding parse
parse-dump v =
    ap (λ bytes. whole (read (length (dump v)) bytes)) (sym (append-nil (dump v)))
    ∙ ap whole (read-dump (length (dump v)) v [] (omega arith))

as_u64-number : (n : ℕ) → n < 2 ^ 64 → as_u64 (number n) ≡ some n
unfolding as_u64
as_u64-number n h = ground arith

as_u64_bound : (v : Json) (n : ℕ) → as_u64 v ≡ some n → n < 2 ^ 64
unfolding as_u64
as_u64_bound v n h = ground arith

at : Json → ℕ → Json
unfolding members
at v i = nth null (members v) i

jzon : Jzon Json
unfolding array get at members as_str as_u64 as_bool is_null is_array is_object has_key entries dump
    parse
jzon = record {
  null = null;
  boolean = boolean;
  number = number;
  string = string;
  array = array;
  new_object = empty_object;
  insert = field;
  get = get;
  at = at;
  members = members;
  as_str = as_str;
  as_u64 = as_u64;
  as_bool = as_bool;
  is_null = is_null;
  is_array = is_array;
  is_object = is_object;
  has_key = has_key;
  entries = entries;
  pretty = dump;
  parse_text = parse;
  dump = dump;
  parse = parse;
  b64_encode = λ bs. bs;
  b64_decode = λ s. some s;
  os_bytes = λ s. s;
  os_string = λ bs. bs;
  as_str-string = λ s. refl;
  as_u64-number = as_u64-number;
  as_u64_bound = as_u64_bound;
  as_bool-boolean = λ b. refl;
  is_null-null = refl;
  is_null-string = λ s. refl;
  is_null-number = λ n. refl;
  is_null-boolean = λ b. refl;
  is_array-array = is_array-array;
  members-array = members-array;
  at-array = λ vs i. ap (λ l. nth null l i) (members-array vs);
  is_object-new = refl;
  is_object-insert = λ k v o. refl;
  get-new = λ k. refl;
  get-insert = λ k i v o h. refl;
  is_object-array = is_object-array;
  as_str_of_object = as_str_of_object;
  has_key-new = λ k. refl;
  has_key-insert = λ k i v o h. refl;
  entries-new = refl;
  entries-insert = λ k v o h f. refl;
  parse_text-pretty = parse-dump;
  parse-dump = parse-dump;
  b64_decode-b64_encode = λ bs. refl;
  os_string-os_bytes = λ s. refl;
}

-- A drag of the left button over task 7.
abbrev dragging : Command
dragging = mouse 7 (drag MouseBtn.left) 79 23

dragging_round :
    decode_command jzon (encode_command jzon dragging).0 (encode_command jzon dragging).1
    ≡ some dragging
dragging_round = decode_command-encode_command jzon dragging (omega arith)

decode_command-encode_command_example :
    decode_command jzon (encode_command jzon dragging).0 (encode_command jzon dragging).1
    ≡ some dragging
decode_command-encode_command_example = decode_command-encode_command jzon dragging (omega arith)

decode_command-refuses_example :
    (decode_command jzon
        (encode_command jzon (resize 24 65536)).0
        (encode_command jzon (resize 24 65536)).1
      ≡ if_both 24 65536 (resize 24 65536))
    × (decode_command jzon
          (encode_command jzon (mouse 3 wheel_up 65536 24)).0
          (encode_command jzon (mouse 3 wheel_up 65536 24)).1
        ≡ if_both 65536 24 (mouse 3 wheel_up 65536 24))
decode_command-refuses_example =
    decode_command-refuses jzon 24 65536 3 wheel_up (omega arith) (omega arith) (omega arith)

-- A copy of two characters, one of them of three bytes.
abbrev copied : Event
copied = clipboard_copy 3 clipboard (b'a' ∷ 0x20ac ∷ [])

decode_event-encode_event_example :
    decode_event jzon (encode_event jzon copied).0 (encode_event jzon copied).1
    ≡ some (wired copied)
decode_event-encode_event_example =
    decode_event-encode_event jzon copied
      (omega arith, (inl (omega arith), (inl (omega arith), tt)))

abbrev client : LaunchContext
client = record { env = (text "HOME", text "/home/a") ∷ []; cwd = text "/home/a/src" }

decode_hello-encode_hello_example :
    (decode_hello jzon (encode_hello jzon client).0 (encode_hello jzon client).1
      ≡ some (protocol_version, client))
    × (hello_version jzon (encode_hello jzon client).0 (encode_hello jzon client).1
        ≡ some protocol_version)
decode_hello-encode_hello_example = decode_hello-encode_hello jzon client

-- A recipe with a command and a marked agent that resumes a session.
abbrev editor : SessionEntry
editor = record {
  kind = literal (text "vim");
  group = none;
  name = none;
  tagged = false;
  flagship = false;
  stopped = false;
}

abbrev pilot : SessionEntry
pilot = record {
  kind = managed (text "claude") (some (text "c8c4a5cc-0b32-4ba0-a6b4-6ed08c218e0d"));
  group = some (text "agents");
  name = none;
  tagged = true;
  flagship = true;
  stopped = false;
}

abbrev recipe : SessionConfig
recipe = (text "/tmp", editor ∷ pilot ∷ []) ∷ []

recipe-RecipeValid : RecipeValid recipe
unfolding registered is_uuid text text_eq utf8 marks all_marks
recipe-RecipeValid = ((tt, tt), ((tt, ((refl, refl), tt)), tt), omega arith)

from_json-to_json_example :
    from_json jzon (to_json jzon (text "work") recipe) ≡ Checked.ok (some (text "work"), recipe)
from_json-to_json_example = from_json-to_json jzon (text "work") recipe recipe-RecipeValid

from_json-RecipeValid_example : RecipeValid recipe
from_json-RecipeValid_example =
    from_json-RecipeValid jzon (to_json jzon (text "work") recipe) (some (text "work")) recipe
      (from_json-to_json jzon (text "work") recipe recipe-RecipeValid)
