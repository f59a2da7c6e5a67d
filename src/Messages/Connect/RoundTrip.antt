-- ===== src/Messages/Connect/RoundTrip.antt =====
-- What `read_connect` makes of the bytes of a connect message.
use laps.Prelude.{◌≡◌, ap, ◌∙◌, []}
use laps.Prelude.Outcome.{done}
use laps.Wire.{read_byte}
use laps.Wire.Reads.{read_step, read_byte-cons}
use laps.Messages.Types.{IsPeerMode, peer_mode_of-byte, PeerMode}
use laps.Messages.UintVar.{UintVar, UintVarLaws}
use laps.Messages.NodeInfo.{read_node_info}
use laps.Messages.NodeInfo.RoundTrip.{IsNodeInfo, read_node_info-append}
use laps.Messages.Connect.{Connect, body, read_connect}

pub record IsConnect (c : Connect) : Type 0 where
  pub mode : IsPeerMode c.mode
  pub node_info : IsNodeInfo c.node_info

-- Reading the body of a connect message whose fields fit their types gives the message back.
pub read_connect-body :
    (u : UintVar) (c : Connect)
    → UintVarLaws u
    → IsConnect c
    → read_connect u (body u c) ≡ done (c, [])
unfolding read_connect body
read_connect-body u c laws h =
    read_step read_byte _ (read_byte-cons _ _)
    ∙ read_step (read_node_info u) _ (read_node_info-append u c.node_info laws h.node_info)
    ∙ ap (λ (m : PeerMode). done (record c { mode = m }, [])) (peer_mode_of-byte c.mode h.mode)
