-- ===== src/Server/Advertise.antt =====
-- control-panel/internal/discovery/advertise.go and its call in control-panel/cmd/server/main.go.
-- hashicorp/mdns and os.Hostname are parameters.
use ldndrc.Base.{
  ℤ, String, Bool, Option, none, some, List, [], ◌∷◌, Result, ok, err, concat, itoa, str_eq,
  if◌then◌else◌,
}

-- os.Hostname, mdns.NewMDNSService by its instance, service, port and TXT records, mdns.NewServer
-- on that zone, and Shutdown, over services `S` and servers `V`
pub record Mdns (S V : Type 0) : Type 0 where
  pub hostname : Result String String
  pub new_service : String → String → ℤ → List String → Result String S
  pub new_server : S → Result String V
  pub shutdown : V → Option String

-- Advertiser
pub record Advertiser (V : Type 0) : Type 0 where
  pub server : V
  pub addr : String

-- ServiceType
abbrev pub service_type : String
service_type = "_ldndrc-master._tcp"

-- TXTRecords
unfoldable pub txt_records : List String
txt_records = "cluster=ldndrc" ∷ "version=1" ∷ "path=/api/nodes/register" ∷ []

module _ {S V : Type 0} (mdns : Mdns S V) where
  abbrev serve : String → ℤ → Result String S → Result String (Advertiser V)
  serve instance_name port (err e) = err (concat ("mdns service: " ∷ e ∷ []))
  serve instance_name port (ok service) = elim (mdns.new_server service) [
    | err e ↦ err (concat ("mdns server: " ∷ e ∷ []))
    | ok server ↦
        ok (record { server = server; addr = concat (instance_name ∷ ":" ∷ itoa port ∷ []) })
  ]

  -- Start behind the instance's name
  unfoldable pub announce : String → ℤ → List String → Result String (Advertiser V)
  announce instance_name port txt =
      serve instance_name port (mdns.new_service instance_name service_type port txt)

  -- Start
  unfoldable pub start : String → ℤ → List String → Result String (Advertiser V)
  start instance_name port txt =
      if str_eq instance_name ""
      then elim mdns.hostname [
        | err e ↦ err (concat ("mdns instance name: " ∷ e ∷ []))
        | ok host ↦ announce host port txt
      ]
      else announce instance_name port txt

  -- Shutdown
  unfoldable pub shutdown : Advertiser V → Option String
  shutdown a = mdns.shutdown a.server

  -- The part of main: the advertiser that runs, and the line that it logs otherwise
  unfoldable pub advertise : Bool → ℤ → Option (Advertiser V) × List String
  advertise wanted port =
      if wanted
      then elim (start "" port txt_records) [
        | ok a ↦ (some a, [])
        | err e ↦ (
          none,
          concat ("discovery: advertise unavailable, clients must use MASTER_IP: " ∷ e ∷ []) ∷ [],
        )
      ]
      else (none, [])
