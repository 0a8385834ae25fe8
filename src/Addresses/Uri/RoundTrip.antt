-- ===== src/Addresses/Uri/RoundTrip.antt =====
-- addresses/uri.cpp: the text of a URI is parsed back.
use Prim.Native.Char.{Char, code}
use cpp_msgpack_rpc.Common.Texts.{append_assoc, append-nil, append}
use cpp_msgpack_rpc.Common.{
  ℕ, ◌≡◌, ◌≢◌, ◌<◌, ◌^◌, refl, ap, sym, ◌∙◌, ◌⊎◌, inl, inr, Bool, true, false, Bool-cases,
  Option-cases, none, some, List, [], ◌∷◌, ok, String, arith,
}
use cpp_msgpack_rpc.Addresses.Regex.{
  all, Regex, literal, captured, one_or_more, Matches, cons-inj, append_inj, wrong_start, two_runs,
}
use cpp_msgpack_rpc.Addresses.Uri.{
  Uri, tcp_scheme, unix_socket_scheme, is_host_char, is_ipv6_char, is_digit, is_any_char, ip_regex,
  file_path_regex, Library, IsLawful, match_any, uri_of, parse, has_colon, format,
}

abbrev pub IsTcp : Uri → Type 0
IsTcp u =
    (u.scheme ≡ tcp_scheme)
    × (u.host_or_path ≢ String.[])
    × (all is_ipv6_char u.host_or_path ≡ true)
    × (p : ℕ) × (u.port_number ≡ some p)
    × (p < 2 ^ 16)

abbrev pub IsUnix : Uri → Type 0
IsUnix u =
    (u.scheme ≡ unix_socket_scheme)
    × (u.host_or_path ≢ String.[])
    × (all is_any_char u.host_or_path ≡ true)
    × (u.port_number ≡ none)

abbrev pub IsValid : Uri → Type 0
IsValid u = IsTcp u ⊎ IsUnix u

no_colon :
    (h : String) → has_colon h ≡ false → all is_ipv6_char h ≡ true → all is_host_char h ≡ true
no_colon String.[] e a = refl
no_colon (String.◌∷◌ c h) e a = ground (arith, no_colon h)

module _ (l : Library) (lawful : IsLawful l) where
  matched :
      (r : Regex) (t : String) (cs : List String)
      → Matches r t cs
      → ((ds : List String) → Matches r t ds → ds ≡ cs)
      → l.full_match r t ≡ some cs
  matched r t cs m only = elim (Option-cases (l.full_match r t)) [
    | inl e ↦ absurd (lawful.match_complete r t cs m e)
    | inr (ds, e) ↦ e ∙ ap some (only ds (lawful.match_sound r t ds e))
  ]

  unmatched :
      (r : Regex) (t : String) → ((ds : List String) → Matches r t ds → ⊥) → l.full_match r t ≡ none
  unmatched r t never = elim (Option-cases (l.full_match r t)) [
    | inl e ↦ e
    | inr (ds, e) ↦ absurd (never ds (lawful.match_sound r t ds e))
  ]

  abbrev IsText : (Char → Bool) → String → Type 0
  IsText p s = (s ≢ String.[]) × (all p s ≡ true)

  -- Both of the expressions for TCP, with the text around the host.
  abbrev tcp_regex : (Char → Bool) → (before : String) → Char → (after : String) → Regex
  tcp_regex p before x after =
      captured "tcp"
      ∷ literal before
      ∷ one_or_more p
      ∷ literal (String.◌∷◌ x after)
      ∷ one_or_more is_digit
      ∷ []

  abbrev tcp_text : (before : String) → Char → (after host digits : String) → String
  tcp_text before x after h d =
      append "tcp" (append before (append h (append (String.◌∷◌ x after) d)))

  tcp_match :
      (p : Char → Bool) (before : String) (x : Char) (after h d : String)
      → p x ≡ false
      → IsText p h
      → IsText is_digit d
      → l.full_match (tcp_regex p before x after) (tcp_text before x after h d)
        ≡ some ("tcp" ∷ h ∷ d ∷ [])
  tcp_match p before x after h d no_x (some_h, hh) (some_d, hd) =
      let r = tcp_regex p before x after in
      let t = tcp_text before x after h d in
      let cs = "tcp" ∷ h ∷ d ∷ [] in
      let digits : Matches (one_or_more is_digit ∷ []) d (d ∷ []) =
        (d, String.[], [], sym (append-nil d), refl, some_d, hd, (refl, refl)) in
      let there : Matches r t cs =
        (_, _, refl, refl, (_, refl, (h, _, _, refl, refl, some_h, hh, (d, refl, digits)))) in
      matched r t cs there (λ ds (rest, es, e, c, (rest2, e2, m)).
        let inner = append h (append (String.◌∷◌ x after) d) in
        let first : append before inner ≡ append before rest2 =
          append_inj "tcp" (append before inner) rest e ∙ e2 in
        let same : rest2 ≡ inner = sym (append_inj before inner rest2 first) in
        c ∙ ap (λ ys. "tcp" ∷ ys) (two_runs p is_digit x after h d es no_x hh (rw same at m)))

  -- In brackets, the host is not one of the first expression.
  ip_unmatched : (t : String) → l.full_match ip_regex (append "tcp" (append "://[" t)) ≡ none
  ip_unmatched t =
      unmatched ip_regex (append "tcp" (append "://[" t)) (λ ds (rest, es, e, c, (rest2, e2, m)).
        let first : append "://" (append "[" t) ≡ append "://" rest2 =
          append_inj "tcp" (append "://[" t) rest e ∙ e2 in
        let same : rest2 ≡ append "[" t = sym (append_inj "://" (append "[" t) rest2 first) in
        wrong_start is_host_char "[" (literal ":" ∷ one_or_more is_digit ∷ []) t es refl
          (rw same at m))

  tcp_unmatched :
      (r : Regex) (t : String) → l.full_match (captured "tcp" ∷ r) (append "unix" t) ≡ none
  tcp_unmatched r t = unmatched (captured "tcp" ∷ r) (append "unix" t) (λ ds (rest, es, e, c, m).
      let (h, later) = cons-inj "u" "t" (append "nix" t) (append "cp" rest) e in
      let numbers : 117 ≡ 116 = ap code h in absurd (omega (arith, numbers)))

  path_match :
      (h : String)
      → IsText is_any_char h
      → l.full_match file_path_regex (append "unix" (append "://" h)) ≡ some ("unix" ∷ h ∷ [])
  path_match h (some_h, hh) =
      let t = append "unix" (append "://" h) in
      matched file_path_regex t ("unix" ∷ h ∷ [])
        (
          _,
          _,
          refl,
          refl,
          (_, refl, (h, String.[], [], sym (append-nil h), refl, some_h, hh, (refl, refl))),
        )
        (λ ds (rest, es, e, c, (rest2, e2, (w, rest3, fs, e3, c3, some_w, hw, (end, c4)))).
          let first : append "://" h ≡ append "://" rest2 =
            append_inj "unix" (append "://" h) rest e ∙ e2 in
          let whole : h ≡ w = append_inj "://" h rest2 first ∙ e3 ∙ rw end (append-nil w) in
          c ∙ rw (c3, c4, whole) refl)

  tcp-parse :
      (h : String) (p : ℕ)
      → IsText is_ipv6_char h
      → p < 2 ^ 16
      → parse l (format l (record { scheme = "tcp"; host_or_path = h; port_number = some p }))
        ≡ ok (record { scheme = "tcp"; host_or_path = h; port_number = some p })
  unfolding parse format match_any uri_of
  tcp-parse h p (some_h, hh) small =
      let digits : IsText is_digit (l.print p) = (lawful.print_some p, lawful.print_digits p) in
      elim (Bool-cases (has_colon h)) [
        | inl colon ↦
            let m = tcp_match is_ipv6_char "://[" "]" ":" h (l.print p) refl (some_h, hh) digits in
            rw
              (
                colon,
                append_assoc h "]" (append ":" (l.print p)),
                ip_unmatched,
                m,
                lawful.to_uint16-print p small,
              )
              refl
        | inr plain ↦
            let m =
              tcp_match is_host_char "://" ":" "" h (l.print p) refl (some_h, no_colon h plain hh)
                digits in
            rw (plain, m, lawful.to_uint16-print p small) refl
      ]

  unix-parse :
      (h : String)
      → IsText is_any_char h
      → parse l (format l (record { scheme = "unix"; host_or_path = h; port_number = none }))
        ≡ ok (record { scheme = "unix"; host_or_path = h; port_number = none })
  unfolding parse format match_any uri_of
  unix-parse h text =
      let t = append "://" h in
      let ip =
        tcp_unmatched
          (literal "://" ∷ one_or_more is_host_char ∷ literal ":" ∷ one_or_more is_digit ∷ []) t in
      let ipv6 =
        tcp_unmatched
          (literal "://[" ∷ one_or_more is_ipv6_char ∷ literal "]:" ∷ one_or_more is_digit ∷ [])
          t in
      rw (append-nil h, ip, ipv6, path_match h text) refl

  -- A valid URI, for TCP or for a Unix socket, is parsed back from its text.
  pub parse-format : (u : Uri) → IsValid u → parse l (format l u) ≡ ok u
  parse-format u (inl (scheme, some_h, hh, p, port, small)) =
      rw (scheme, port) (tcp-parse u.host_or_path p (some_h, hh) small)
  parse-format u (inr (scheme, some_h, hh, port)) =
      rw (scheme, port) (unix-parse u.host_or_path (some_h, hh))
