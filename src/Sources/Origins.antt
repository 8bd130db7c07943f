-- ===== src/Sources/Origins.antt =====
-- When two URLs count as one origin.
use Prim.Native.String.{◌++◌}
use text.Mathlib.TextLemmas.{append-nil, append_assoc}
use xray_e2e_prober.Base.{
  ℕ, String, ◌≡◌, sym, ap, ◌∙◌, true, false, some, ◌==◌, string_eq, nat_eq, ok,
}
use xray_e2e_prober.Sources.Config.{
  Url, no_port, port_of, is_http, default_port, UrlLibrary, suffix, origin_of,
}

abbrev pub at_port : String → String → ℕ → Url
at_port scheme host n = record { scheme = scheme; hostname = some host; port = port_of n }

abbrev pub without_port : String → String → Url
without_port scheme host = record { scheme = scheme; hostname = some host; port = no_port }

-- A host with a port that is not the scheme's own has the same origin as the host whose name is both
-- written together, which an IPv6 address is, whose brackets a parsed URL has not.
pub origin_collision :
    (lib : UrlLibrary) (scheme host : String) (n : ℕ)
    → is_http (at_port scheme host n) ≡ true
    → (host == "") ≡ false
    → (host ++ ":" ++ lib.str n == "") ≡ false
    → (n == 0) ≡ false
    → (n == default_port scheme) ≡ false
    → origin_of lib (some (at_port scheme host n))
      ≡ origin_of lib (some (without_port scheme (host ++ ":" ++ lib.str n)))
unfolding origin_of suffix
origin_collision lib scheme host n http named named' port other =
    rw (http, named, named', port, other)
      (ap ok (
        append_assoc (scheme ++ "://") host (":" ++ lib.str n)
        ∙ sym (append-nil ((scheme ++ "://") ++ host ++ ":" ++ lib.str n))))
