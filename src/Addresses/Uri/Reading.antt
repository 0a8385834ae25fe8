-- ===== src/Addresses/Uri/Reading.antt =====
-- addresses/uri.cpp: what the parser of URIs accepts, and the comparison.
use Prim.Native.Char.{Char}
use Prim.Native.String.{◌++◌}
use text.Mathlib.Text
use text.Mathlib.TextEquality.{eq_iff}
use text.Mathlib.TextPositions.{eq_refl}
use cpp_msgpack_rpc.Common.{
  ℕ, ◌≡◌, ◌≢◌, ◌<◌, ◌^◌, ◌↔◌, refl, sym, ◌⊎◌, inl, inr, Bool, true, ◌&&◌, Option, none, some, List,
  [], ◌∷◌, Result, ok, err, String, arith,
}
use cpp_msgpack_rpc.Status.{Status, status, invalid_argument}
use cpp_msgpack_rpc.Addresses.Regex.{all, literal, captured, one_or_more, and_true}
use cpp_msgpack_rpc.Addresses.Uri.{
  Uri, is_host_char, is_ipv6_char, is_digit, is_any_char, ip_regex, ipv6_regex, file_path_regex,
  Library, IsLawful, of_three, of_two, or_else, with_port, match_any, uri_of, parse, equals,
  same_port,
}
use cpp_msgpack_rpc.Addresses.Uri.RoundTrip.{IsValid}

same_port_iff : (o p : Option ℕ) → (same_port o p ≡ true) ↔ (o ≡ p)
same_port_iff none none = ground arith
same_port_iff none (some q) = ground arith
same_port_iff (some p) none = ground arith
same_port_iff (some p) (some q) = ground arith

-- Two URIs are found equal just when they are equal.
pub equals_iff : (u v : Uri) → (equals u v ≡ true) ↔ (u ≡ v)
unfolding equals
equals_iff u v =
    let hosts = Text.◌==◌ u.host_or_path v.host_or_path in
    let ports = same_port u.port_number v.port_number in
    let a = eq_iff u.scheme v.scheme in
    let b = eq_iff u.host_or_path v.host_or_path in
    let c = same_port_iff u.port_number v.port_number in
    (
      λ e.
          let (texts, port) = and_true (Text.◌==◌ u.scheme v.scheme && hosts) ports e in
          let (scheme, host) = and_true (Text.◌==◌ u.scheme v.scheme) hosts texts in
          λ i. record {
            scheme = a.0 scheme i;
            host_or_path = b.0 host i;
            port_number = c.0 port i;
          },
      λ e.
          rw (e, eq_refl v.scheme, eq_refl v.host_or_path)
            ((same_port_iff v.port_number v.port_number).1 refl),
    )

host-ipv6 : (h : String) → all is_host_char h ≡ true → all is_ipv6_char h ≡ true
host-ipv6 String.[] e = refl
host-ipv6 (String.◌∷◌ c h) e = ground (arith, host-ipv6 h)

-- What `match_any` can find.
abbrev IsFound : Option (String × String × ℕ) → Type 0
IsFound none = Unit {0}
IsFound (some (scheme, host, port)) =
    (host ≢ String.[])
    × (((scheme ≡ "tcp") × (all is_ipv6_char host ≡ true) × (port < 2 ^ 16))
        ⊎ ((scheme ≡ "unix") × (all is_any_char host ≡ true)))

abbrev pub IsParsed : String → Result Status Uri → Type 0
IsParsed t (ok u) = IsValid u
IsParsed t (err s) = s ≡ status invalid_argument ("Invalid URI string: \"" ++ t ++ "\".")

module _ (l : Library) (lawful : IsLawful l) where
  or_else-IsFound :
      (m n : Option (String × String × ℕ)) → IsFound m → IsFound n → IsFound (or_else l m n)
  or_else-IsFound none n f g = g
  or_else-IsFound (some m) n f g = f

  with_port-IsFound :
      (scheme host : String) (o : Option ℕ)
      → scheme ≡ "tcp"
      → host ≢ String.[]
      → all is_ipv6_char host ≡ true
      → ((p : ℕ) → o ≡ some p → p < 2 ^ 16)
      → IsFound (with_port l scheme host o)
  with_port-IsFound scheme host none is_tcp some_h hh small = _
  with_port-IsFound scheme host (some p) is_tcp some_h hh small =
      (some_h, inl (is_tcp, hh, small p refl))

  -- The two expressions for TCP.
  of_three-IsFound :
      (p : Char → Bool) (before after t : String) (o : Option (List String))
      → ((h : String) → all p h ≡ true → all is_ipv6_char h ≡ true)
      → o
        ≡ l.full_match
            (captured "tcp"
              ∷ literal before
              ∷ one_or_more p
              ∷ literal after
              ∷ one_or_more is_digit
              ∷ [])
            t
      → IsFound (of_three l o)
  of_three-IsFound p before after t none wider e = _
  of_three-IsFound p before after t (some cs) wider e =
      let r =
        captured "tcp"
        ∷ literal before
        ∷ one_or_more p
        ∷ literal after
        ∷ one_or_more is_digit
        ∷ [] in
      let (
        rest,
        ds,
        e1,
        c1,
        (
          rest2,
          e2,
          (
            h,
            rest3,
            ds3,
            e3,
            c3,
            some_h,
            hh,
            (rest4, e4, (w, rest5, ds5, e5, c5, some_w, hw, (end, c6))),
          ),
        ),
      ) =
        lawful.match_sound r t cs (sym e) in
      rw (c1, c3, c5, c6)
        (with_port-IsFound "tcp" h (l.to_uint16 w) refl some_h (wider h hh) (lawful.fits w))

  of_two-IsFound :
      (t : String) (o : Option (List String))
      → o ≡ l.full_match file_path_regex t
      → IsFound (of_two l o)
  of_two-IsFound t none e = _
  of_two-IsFound t (some cs) e =
      let (rest, ds, e1, c1, (rest2, e2, (h, rest3, ds3, e3, c3, some_h, hh, (end, c4)))) =
        lawful.match_sound file_path_regex t cs (sym e) in
      rw (c1, c3, c4) (some_h, inr (refl, hh))

  uri_of-IsParsed :
      (t : String) (m : Option (String × String × ℕ)) → IsFound m → IsParsed t (uri_of l t m)
  unfolding uri_of
  uri_of-IsParsed t none f = refl
  uri_of-IsParsed t (some (scheme, host, port)) (some_h, inl (is_tcp, hh, small)) =
      rw is_tcp (inl (refl, some_h, hh, port, refl, small))
  uri_of-IsParsed t (some (scheme, host, port)) (some_h, inr (is_unix, hh)) =
      rw is_unix (inr (refl, some_h, hh, refl))

  -- A text is parsed as a valid URI, or refused with INVALID_ARGUMENT; the exception after the tests of
  -- the scheme is never thrown.
  pub parse-IsParsed : (t : String) → IsParsed t (parse l t)
  unfolding parse match_any
  parse-IsParsed t = uri_of-IsParsed t (match_any l t) (
      or_else-IsFound (of_three l (l.full_match ip_regex t))
        (or_else l (of_three l (l.full_match ipv6_regex t))
          (of_two l (l.full_match file_path_regex t)))
        (of_three-IsFound is_host_char "://" ":" t (l.full_match ip_regex t) host-ipv6 refl)
        (or_else-IsFound (of_three l (l.full_match ipv6_regex t))
          (of_two l (l.full_match file_path_regex t))
          (of_three-IsFound is_ipv6_char "://[" "]:" t (l.full_match ipv6_regex t) (λ h e. e) refl)
          (of_two-IsFound t (l.full_match file_path_regex t) refl)))
