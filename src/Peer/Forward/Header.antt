-- ===== src/Peer/Forward/Header.antt =====
-- The header of forwarded data: what `ForwardPeerData` of src/peering/peer_manager.cc writes into
-- the bytes, and what the next relay reads.
use laps.Prelude.{ℕ, ◌≡◌, ◌^◌, ◌<◌, List, ◌++◌, refl, sym, subst, true}
use laps.Prelude.Outcome.{done}
use laps.Messages.DataHeader.{
  DataHeader, new_stream, serialize, deserialize, append_header, fields, default_header,
}
use laps.Messages.DataHeader.RoundTrip.{IsDataHeader, deserialize-new_stream}
use laps.Wire.{net, bytes_of}
use laps.Peer.Forward.{replace_sns_id}

-- The four bytes behind the length and the type are the node set id, in both kinds of header.
replace_sns_id-serialize :
    (h : DataHeader) (id : ℕ) (payload : List ℕ)
    → h.type ≡ new_stream
    → replace_sns_id id (serialize h ++ payload)
      ≡ done (serialize (record h { sns_id = id }) ++ payload)
unfolding replace_sns_id serialize append_header fields net bytes_of
replace_sns_id-serialize h id payload e =
    subst
      (λ t.
        replace_sns_id id (serialize (record h { type = t }) ++ payload)
        ≡ done (serialize (record h { type = t; sns_id = id }) ++ payload))
      (sym e) refl

-- A header of a new stream, forwarded and read by the next relay: the node set id is the one of the
-- egress, and the other fields are those that came in. The payload behind the header is untouched.
pub forwarded_header :
    (h : DataHeader) (id : ℕ) (payload : List ℕ)
    → h.type ≡ new_stream
    → IsDataHeader h
    → id < 2 ^ 32
    → (out : List ℕ) × (replace_sns_id id (serialize h ++ payload) ≡ done (out ++ payload))
      × (deserialize default_header (out ++ payload)
          ≡ done (true, record h { header_len = 19; sns_id = id }))
forwarded_header h id payload e fits small =
    let egress = record h { sns_id = id } in
    (
      serialize egress,
      replace_sns_id-serialize h id payload e,
      (deserialize-new_stream egress default_header payload e (record {
        sns_id = small;
        track_full_name_hash = fits.track_full_name_hash;
        priority = fits.priority;
        ttl = fits.ttl;
      })).1,
    )
