-- ===== src/Tests/Addresses.antt =====
-- URIs at concrete values.
use cpp_msgpack_rpc.Common.{◌≡◌, ◌↔◌, refl, inl, some, true, ok, arith}
use cpp_msgpack_rpc.Addresses.Uri.{Uri, equals, parse, format}
use cpp_msgpack_rpc.Addresses.Uri.RoundTrip.{parse-format}
use cpp_msgpack_rpc.Addresses.Uri.Reading.{equals_iff, IsParsed, parse-IsParsed}
use cpp_msgpack_rpc.Tests.Matcher.{library, library-IsLawful}

abbrev local_uri : Uri
local_uri = record { scheme = "tcp"; host_or_path = "::1"; port_number = some 8080 }

parse-format_example : parse library (format library local_uri) ≡ ok local_uri
parse-format_example =
    parse-format library library-IsLawful local_uri
      (inl (refl, λ e. cc, refl, 8080, refl, omega arith))

parse-IsParsed_example : IsParsed "tcp://localhost:80" (parse library "tcp://localhost:80")
parse-IsParsed_example = parse-IsParsed library library-IsLawful "tcp://localhost:80"

equals_iff_example : (equals local_uri local_uri ≡ true) ↔ (local_uri ≡ local_uri)
equals_iff_example = equals_iff local_uri local_uri

parsed :
    parse library "tcp://[::1]:8080"
    ≡ ok (record { scheme = "tcp"; host_or_path = "::1"; port_number = some 8080 })
unfolding parse
parsed = refl
