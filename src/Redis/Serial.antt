-- ===== src/Redis/Serial.antt =====
-- Codecs by which a record is kept in a text, built up from those of its fields: a printer that
-- writes before a rest, and a parser that gives the rest back.
use Prim.Native.Char.{Char, code}
use Prim.Native.String.{[] as empty, ◌∷◌ as ◌∷ᵗ◌}
use opspilot_agent_platform.Prelude.{
  ℕ, zero, suc, String, ◌≡◌, refl, Bool, true, false, Option, none, some, List, [], ◌∷◌, arith,
  nat_beq, length, if◌then◌else◌,
}
use opspilot_agent_platform.Redis.Database.{Codec}

pub record Serial (A : Type 0) : Type 0 where
  pub put : A → String → String
  pub get : String → Option (A × String)
  pub get-put : (a : A) (rest : String) → get (put a rest) ≡ some (a, rest)

abbrev mark : Bool → Char
mark true = "y"
mark false = "n"

abbrev get_mark : String → Option (Bool × String)
get_mark empty = none
get_mark (c ∷ᵗ s) = some (nat_beq (code c) b'y', s)

flag : Serial Bool
flag = record {
  put = λ b rest. mark b ∷ᵗ rest;
  get = get_mark;
  get-put = elim [ true ↦ λ rest. refl | false ↦ λ rest. refl ];
}

put_text : String → String → String
put_text empty rest = "n" ∷ᵗ rest
put_text (c ∷ᵗ s) rest = "y" ∷ᵗ (c ∷ᵗ put_text s rest)

get_text : String → Option (String × String)
get_text empty = none
get_text (c ∷ᵗ empty) = some (empty, empty)
get_text (m ∷ᵗ (c ∷ᵗ s)) = elim (get_text s) [
  | none ↦ if nat_beq (code m) b'y' then none else some (empty, c ∷ᵗ s)
  | some (t, rest) ↦ if nat_beq (code m) b'y' then some (c ∷ᵗ t, rest) else some (empty, c ∷ᵗ s)
]

get-put_text : (s rest : String) → get_text (put_text s rest) ≡ some (s, rest)
unfolding put_text get_text
get-put_text empty empty = refl
get-put_text empty (c ∷ᵗ rest) = ground arith
get-put_text (c ∷ᵗ s) rest = ground (arith, get-put_text s rest)

pub text : Serial String
text = record { put = put_text; get = get_text; get-put = get-put_text }

put_number : ℕ → String → String
put_number zero rest = "n" ∷ᵗ rest
put_number (suc n) rest = "y" ∷ᵗ put_number n rest

get_number : String → Option (ℕ × String)
get_number empty = none
get_number (m ∷ᵗ s) =
    let r = get_number s in
    if nat_beq (code m) b'y'
    then elim r [ none ↦ none | some (n, rest) ↦ some (suc n, rest) ]
    else some (zero, s)

get-put_number : (n : ℕ) (rest : String) → get_number (put_number n rest) ≡ some (n, rest)
unfolding put_number get_number
get-put_number zero rest = refl
get-put_number (suc n) rest = ground (arith, get-put_number n rest)

pub number : Serial ℕ
number = record { put = put_number; get = get_number; get-put = get-put_number }

module _ {A B : Type 0} (a : Serial A) (b : Serial B) where
  get_pair : String → Option ((A × B) × String)
  get_pair s = elim (a.get s) [
    | none ↦ none
    | some (x, s') ↦ elim (b.get s') [ none ↦ none | some (y, rest) ↦ some ((x, y), rest) ]
  ]

  pub pair : Serial (A × B)
  unfolding get_pair
  pair = record {
    put = λ p rest. a.put p.0 (b.put p.1 rest);
    get = get_pair;
    get-put = λ p rest. ground (arith, a.get-put p.0 (b.put p.1 rest), b.get-put p.1 rest);
  }

module _ {A : Type 0} (a : Serial A) where
  put_option : Option A → String → String
  put_option none rest = flag.put false rest
  put_option (some x) rest = flag.put true (a.put x rest)

  get_option : String → Option (Option A × String)
  get_option s = elim (flag.get s) [
    | none ↦ none
    | some (false, rest) ↦ some (none, rest)
    | some (true, s') ↦ elim (a.get s') [ none ↦ none | some (x, rest) ↦ some (some x, rest) ]
  ]

  get-put_option : (o : Option A) (rest : String) → get_option (put_option o rest) ≡ some (o, rest)
  unfolding put_option get_option flag
  get-put_option none rest = refl
  get-put_option (some x) rest = ground (arith, a.get-put x rest)

  pub option : Serial (Option A)
  option = record { put = put_option; get = get_option; get-put = get-put_option }

  put_many : List A → String → String
  put_many [] rest = rest
  put_many (x ∷ xs) rest = a.put x (put_many xs rest)

  get_many : ℕ → String → Option (List A × String)
  get_many zero s = some ([], s)
  get_many (suc n) s = elim (a.get s) [
    | none ↦ none
    | some (x, s') ↦ elim (get_many n s') [ none ↦ none | some (xs, rest) ↦ some (x ∷ xs, rest) ]
  ]

  get-put_many :
      (xs : List A) (rest : String) → get_many (length xs) (put_many xs rest) ≡ some (xs, rest)
  unfolding put_many get_many
  get-put_many [] rest = refl
  get-put_many (x ∷ xs) rest = ground (arith, a.get-put x (put_many xs rest), get-put_many xs rest)

  get_list : String → Option (List A × String)
  get_list s = elim (number.get s) [ none ↦ none | some (n, s') ↦ get_many n s' ]

  pub list : Serial (List A)
  unfolding get_list
  list = record {
    put = λ xs rest. number.put (length xs) (put_many xs rest);
    get = get_list;
    get-put = λ xs rest.
        ground (arith, number.get-put (length xs) (put_many xs rest), get-put_many xs rest);
  }

-- A type whose values go to the values of another and back.
module _ {A B : Type 0} (b : Serial B) (to : A → B) (from : B → A)
    (back : (x : A) → from (to x) ≡ x) where
  get_via : String → Option (A × String)
  get_via s = elim (b.get s) [ none ↦ none | some (y, rest) ↦ some (from y, rest) ]

  pub via : Serial A
  unfolding get_via
  via = record {
    put = λ x rest. b.put (to x) rest;
    get = get_via;
    get-put = λ x rest. ground (arith, b.get-put (to x) rest, back x);
  }

read_all : {A : Type 0} → Serial A → String → Option A
read_all a s = elim (a.get s) [ none ↦ none | some (x, rest) ↦ some x ]

pub codec : {A : Type 0} → Serial A → Codec A
unfolding read_all
codec a = record {
  encode = λ x. a.put x "";
  decode = read_all a;
  round_trip = λ x. ground (arith, a.get-put x "");
}
