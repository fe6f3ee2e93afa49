-- ===== src/Examples/Ech.antt =====
-- ech.go and tcp_client.go on a small response with one HTTPS record.
use ech_tunnel.Base.{
  ◌≤◌, true, [], ◌∷◌, none, some, ◌≡◌, ◌≢◌, refl, arith, codes, split, Bytes, replicate, length,
  ◌==◌, if◌then◌else◌, contains,
}
use ech_tunnel.Ech.{done, found, label_bytes, parse_dns_response}
use ech_tunnel.Ech.Total.{Returns, parse_dns_response_total}
use ech_tunnel.Ech.View.{AllLabels}
use ech_tunnel.Ech.Record.{Params, AllParams, first_ech, https_record, param_bytes}
use ech_tunnel.Ech.Response.{
  Answer, pointer, labels, Header, first_https, response, parse_dns_response-response, AllAnswers,
}
use ech_tunnel.Ech.{doh_url}
use ech_tunnel.Ech.Cache.{prepare_ech, prepare_ech-response}
use ech_tunnel.Ech.Query.{Web, doh_body}
use ech_tunnel.Ech.Exchange.{served_config_cached}
use ech_tunnel.Dial.{
  Flags, World, connected, dial_failed, is_ech_error, retries_exhausted, ok, error,
  dial_web_socket_with_ech, rejected_text,
}
use ech_tunnel.Dial.Strict.{AllStrict, secured, dial_strict}
use ech_tunnel.Dial.Rotation.{rotated_key_recovered}

-- The target name is the root; the keys are 1 (alpn) and 5 (ech).
abbrev pub params : Params
params = (1, codes "h2") ∷ (5, 1 ∷ 2 ∷ 3 ∷ []) ∷ []

abbrev pub answer : Answer
answer = record {
  name = pointer 12;
  rr_type = 65;
  rr_class = 1;
  ttl = 3600;
  rdata = https_record 1 [] params;
}

-- An answer of another type before it, an alias.
abbrev alias : Answer
alias = record {
  name = labels (codes "ab" ∷ []);
  rr_type = 5;
  rr_class = 1;
  ttl = 60;
  rdata = 0xc0 ∷ 12 ∷ [];
}

-- An authenticated response with one record in its last section.
abbrev pub header : Header
header = record { id = 0; flags = 0x81a0; authorities = 0; additionals = 1 }

no_ech : first_https (alias ∷ []) ≡ []
unfolding first_https
no_ech = refl

parse_dns_response_total_example : Returns (parse_dns_response (replicate 12 255))
parse_dns_response_total_example = parse_dns_response_total (replicate 12 255)

params_fit : AllParams params
params_fit = (omega arith, omega arith, (omega arith, omega arith, tt))

domain_fits : AllLabels (split b'.' (codes "ab"))
unfolding split
domain_fits = (omega arith, omega arith, tt)

answers_fit : AllAnswers (alias ∷ answer ∷ [])
unfolding https_record param_bytes label_bytes
answers_fit = (
  ((omega arith, omega arith, tt), omega arith),
  omega arith,
  omega arith,
  (omega arith, omega arith, omega arith, tt),
)

parse_dns_response-response_example :
    parse_dns_response (response header (codes "ab") (alias ∷ answer ∷ []) (0 ∷ 41 ∷ []))
    ≡ done (found (first_https (alias ∷ answer ∷ [])))
parse_dns_response-response_example =
    parse_dns_response-response header (codes "ab") (alias ∷ answer ∷ []) (0 ∷ 41 ∷ []) domain_fits
      answers_fit (omega arith) (omega arith)

abbrev pub served_body : Bytes
served_body = response header (codes "ab") (alias ∷ answer ∷ []) []

pub served_list : prepare_ech (none ∷ some served_body ∷ []) ≡ some (1 ∷ 2 ∷ 3 ∷ [])
unfolding first_ech
served_list =
    prepare_ech-response answer 1 [] params 1 (2 ∷ 3 ∷ []) (refl, refl) tt params_fit
      (omega arith, (omega arith, (omega arith, tt))) refl header (codes "ab") (alias ∷ []) [] [] []
      domain_fits no_ech answers_fit (omega arith) 1

-- A server that answers every request with the response.
abbrev web : Web
web = record {
  parse_url = λ _. some (record { base = codes "https://d/"; query = [] });
  request_ok = λ _ _. true;
  exchange = λ r. some (record { status = 200; body = some served_body });
}

served_config_cached_example :
    prepare_ech (none ∷ doh_body web (codes "ab") (doh_url (codes "d/")) ∷ [])
    ≡ some (1 ∷ 2 ∷ 3 ∷ [])
unfolding first_ech
served_config_cached_example =
    served_config_cached web (codes "ab") (codes "d/")
      (record { base = codes "https://d/"; query = [] }) (omega arith, (omega arith, tt)) refl refl
      (λ _ _. refl) answer 1 [] params 1 (2 ∷ 3 ∷ []) (refl, refl) tt params_fit
      (omega arith, (omega arith, (omega arith, tt))) refl header (alias ∷ []) [] [] domain_fits
      no_ech answers_fit (omega arith) (λ r asked. refl) 1 []

-- The first dial is rejected, the second one succeeds.
abbrev one_rejection : World
one_rejection = record {
  hostname = λ _. some (codes "h");
  roots = λ _. some 3;
  dial = λ attempt d. if attempt == 1 then dial_failed rejected_text else connected 7;
  refreshed = λ attempt. 1 ∷ [];
}

abbrev flags : Flags
flags = record { token = codes "t"; ip_addr = codes "10.0.0.1" }

dial_strict_example :
    AllStrict flags
      (codes "h")
      (dial_web_socket_with_ech flags one_rejection (codes "wss://h") 2 (9 ∷ [])).1
    × (length (dial_web_socket_with_ech flags one_rejection (codes "wss://h") 2 (9 ∷ [])).1 ≤ 2)
    × ((dial_web_socket_with_ech flags one_rejection (codes "wss://h") 2 (9 ∷ [])).0
        ≢ error retries_exhausted)
dial_strict_example =
    dial_strict flags one_rejection (codes "wss://h") (codes "h") 2 (9 ∷ []) refl (omega arith)

rotated_key_recovered_example :
    dial_web_socket_with_ech flags one_rejection (codes "wss://h") 2 (9 ∷ [])
    ≡ (ok 7, secured flags (codes "h") 3 (9 ∷ []) ∷ secured flags (codes "h") 3 (1 ∷ []) ∷ [])
unfolding is_ech_error contains
rotated_key_recovered_example =
    rotated_key_recovered flags one_rejection (codes "wss://h") (codes "h") 0 (9 ∷ []) refl refl 3 3
      refl refl rejected_text refl refl refl 7 refl
