-- ===== src/Addresses/Uri.antt =====
-- addresses/uri.h, addresses/uri.cpp, addresses/schemes.h: URIs, their parser and their text. RE2 and
-- fmt are parameters.
pub mod Reading
pub mod RoundTrip
use Prim.Native.Char.{Char, code}
use Prim.Native.String.{◌++◌}
use text.Mathlib.Text
use cpp_msgpack_rpc.Common.Texts.{append}
use cpp_msgpack_rpc.Common.{
  ℕ, ◌≡◌, ◌≢◌, ◌<◌, ◌^◌, Bool, true, false, not, ◌&&◌, ◌||◌, Option, none, some, List, [], ◌∷◌, leb,
  ◌==◌, if◌then◌else◌, Result, ok, err, String,
}
use cpp_msgpack_rpc.Status.{Status, status, invalid_argument, unexpected_error}
use cpp_msgpack_rpc.Addresses.Regex.{all, Regex, literal, captured, one_or_more, Matches}

pub record Uri : Type 0 where
  pub scheme : String
  pub host_or_path : String
  pub port_number : Option ℕ

abbrev pub tcp_scheme : String
tcp_scheme = "tcp"

abbrev pub unix_socket_scheme : String
unix_socket_scheme = "unix"

abbrev pub same_port : Option ℕ → Option ℕ → Bool
same_port none none = true
same_port (some p) (some q) = p == q
same_port _ _ = false

-- URI::operator== and URI::operator!=.
unfoldable pub equals : Uri → Uri → Bool
equals u v =
    Text.◌==◌ u.scheme v.scheme
    && Text.◌==◌ u.host_or_path v.host_or_path
    && same_port u.port_number v.port_number

unfoldable pub differs : Uri → Uri → Bool
unfolding equals
differs u v = not (equals u v)

-- The classes of the regular expressions. In `+-.` the dash makes a range, which has the comma too.
abbrev pub in_range : ℕ → ℕ → Char → Bool
in_range low high c = leb low (code c) && leb (code c) high

abbrev pub is_host_char : Char → Bool
is_host_char c = in_range 97 122 c || in_range 65 90 c || in_range 48 57 c || in_range 43 46 c

abbrev pub is_ipv6_char : Char → Bool
is_ipv6_char c = is_host_char c || in_range 58 58 c

abbrev pub is_digit : Char → Bool
is_digit c = in_range 48 57 c

-- The dot matches everything but the end of a line.
abbrev pub is_any_char : Char → Bool
is_any_char c = not (code c == 10)

abbrev pub ip_regex : Regex
ip_regex =
    captured "tcp"
    ∷ literal "://"
    ∷ one_or_more is_host_char
    ∷ literal ":"
    ∷ one_or_more is_digit
    ∷ []

abbrev pub ipv6_regex : Regex
ipv6_regex =
    captured "tcp"
    ∷ literal "://["
    ∷ one_or_more is_ipv6_char
    ∷ literal "]:"
    ∷ one_or_more is_digit
    ∷ []

abbrev pub file_path_regex : Regex
file_path_regex = captured "unix" ∷ literal "://" ∷ one_or_more is_any_char ∷ []

-- What the code uses of the libraries: the match of a whole text with its captures, the number that
-- a capture is read as, and the text of a number.
pub record Library : Type 0 where
  pub full_match : Regex → String → Option (List String)
  pub to_uint16 : String → Option ℕ
  pub print : ℕ → String

-- A match is found when there is one, with the captures of a match. A number is read only if it fits,
-- and it is printed as digits that are read as that number.
pub record IsLawful (l : Library) : Type 0 where
  pub match_sound :
      (r : Regex) (t : String) (cs : List String) → l.full_match r t ≡ some cs → Matches r t cs
  pub match_complete :
      (r : Regex) (t : String) (cs : List String) → Matches r t cs → l.full_match r t ≢ none
  pub fits : (w : String) (p : ℕ) → l.to_uint16 w ≡ some p → p < 2 ^ 16
  pub print_digits : (p : ℕ) → all is_digit (l.print p) ≡ true
  pub print_some : (p : ℕ) → l.print p ≢ String.[]
  pub to_uint16-print : (p : ℕ) → p < 2 ^ 16 → l.to_uint16 (l.print p) ≡ some p

-- `find(':') == npos`.
abbrev pub has_colon : String → Bool
has_colon String.[] = false
has_colon (String.◌∷◌ c s) = (code c == 58) || has_colon s

module _ (l : Library) where
  abbrev pub with_port : String → String → Option ℕ → Option (String × String × ℕ)
  with_port scheme host none = none
  with_port scheme host (some port) = some (scheme, host, port)

  -- `FullMatch` with arguments for three captures, or for two.
  abbrev pub of_three : Option (List String) → Option (String × String × ℕ)
  of_three (some (scheme ∷ host ∷ port ∷ [])) = with_port scheme host (l.to_uint16 port)
  of_three _ = none

  abbrev pub of_two : Option (List String) → Option (String × String × ℕ)
  of_two (some (scheme ∷ host ∷ [])) = some (scheme, host, 0)
  of_two _ = none

  abbrev pub or_else :
      Option (String × String × ℕ) → Option (String × String × ℕ) → Option (String × String × ℕ)
  or_else none o = o
  or_else (some m) o = some m

  unfoldable pub match_any : String → Option (String × String × ℕ)
  match_any t =
      or_else (of_three (l.full_match ip_regex t))
        (or_else (of_three (l.full_match ipv6_regex t)) (of_two (l.full_match file_path_regex t)))

  -- URI::parse, from what has been matched.
  unfoldable pub uri_of : String → Option (String × String × ℕ) → Result Status Uri
  uri_of t none = err (status invalid_argument ("Invalid URI string: \"" ++ t ++ "\"."))
  uri_of t (some (scheme, host, port)) =
      if Text.◌==◌ scheme tcp_scheme
      then ok (record { scheme = scheme; host_or_path = host; port_number = some port })
      else if Text.◌==◌ scheme unix_socket_scheme
      then ok (record { scheme = scheme; host_or_path = host; port_number = none })
      else err (status unexpected_error "Unexpected line is executed.")

  unfoldable pub parse : String → Result Status Uri
  unfolding match_any uri_of
  parse t = uri_of t (match_any t)

  abbrev pub port_text : Option ℕ → String
  port_text none = String.[]
  port_text (some p) = append ":" (l.print p)

  abbrev pub host_text : Uri → String
  host_text u =
      if Text.◌==◌ u.scheme tcp_scheme
      then if has_colon u.host_or_path
        then append "[" (append u.host_or_path "]")
        else u.host_or_path
      else u.host_or_path

  -- The formatter of URIs.
  unfoldable pub format : Uri → String
  format u = append u.scheme (append "://" (append (host_text u) (port_text u.port_number)))
