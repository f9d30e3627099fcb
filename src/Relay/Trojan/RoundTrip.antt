-- ===== src/Relay/Trojan/RoundTrip.antt =====
-- `parse_trojan_request` undoes `build_trojan_request` for the password of the request, and
-- refuses every other password (core/voidz_core/relay/trojan.py).
use voidz.Prelude.{ℕ, ◌<◌, ◌≡◌, ◌≢◌, refl, length, nat_eq, list_eq}
use voidz.Prelude.Result.{ok, raise, permission_error}
use voidz.Relay.Bytes.{Bytes, Text}
use voidz.Relay.Address.{Host, spelled}
use voidz.Relay.Trojan.{Digest, parse_trojan_request, build_trojan_request}
use voidz.Relay.Trojan.Layout.{framed, lower-hash, build_framed, refuse_framed, address_kinds}

-- For a port in range and a nonempty address of at most 255 bytes, `build_trojan_request` makes a
-- request, and `parse_trojan_request` with the hash of the same password gives back the port, the
-- payload and the address: as it was written, or in the spelling of its packed form if it is an
-- IP address.
pub parse_trojan_request-build_trojan_request :
    (digest : Digest) (host : Host) (password address : Text) (port : ℕ) (payload : Bytes)
    → port < 65536
    → 0 < length (host.encode address)
    → length (host.encode address) < 256
    → (request : Bytes) × (build_trojan_request digest host password address port payload
        ≡ ok request)
      × (parse_trojan_request host.decode request (digest.trojan_password_hash password)
          ≡ ok (spelled host address, port, payload))
parse_trojan_request-build_trojan_request digest host password address port payload in_range
      some_name short =
    let (atyp, body, long, encoded, read) =
      address_kinds digest host password port payload address (host.ip_address address) refl
        some_name short in
    (
      framed digest host password port payload atyp body,
      build_framed digest host password port payload address atyp body in_range encoded,
      read,
    )

-- A request that `build_trojan_request` made for one password is refused with the hash of any
-- password whose hash differs, whatever its address and payload: `PermissionError`.
pub wrong_password :
    (digest : Digest) (host : Host) (password other address : Text) (port : ℕ)
    (payload request : Bytes)
    → digest.trojan_password_hash password ≢ digest.trojan_password_hash other
    → port < 65536
    → 0 < length (host.encode address)
    → length (host.encode address) < 256
    → build_trojan_request digest host password address port payload ≡ ok request
    → parse_trojan_request host.decode request (digest.trojan_password_hash other)
      ≡ raise permission_error
wrong_password digest host password other address port payload request differ in_range some_name
      short built =
    let (atyp, body, long, encoded, read) =
      address_kinds digest host password port payload address (host.ip_address address) refl
        some_name short in
    let same : framed digest host password port payload atyp body ≡ request =
      cc (
        build_framed digest host password port payload address atyp body in_range encoded,
        built,
      ) in
    rw (← same) (
      refuse_framed digest host password port payload atyp body (digest.trojan_password_hash other)
        long (rw (lower-hash digest other) differ))
