-- ===== src/Tcp/Links.antt =====
-- What raw_open of src/comm_tcp.cpp reads from the document leaves the descriptors and the thread alone.
use hakoniwa_pdu_endpoint.Prelude.{
  ℕ, ◌≡◌, refl, Bool, true, false, not, ◌||◌, Option, none, some, codes, ◌==◌, str_Eq, if-Any,
}
use hakoniwa_pdu_endpoint.Types.{HakoPduErrorType, is_ok}
use hakoniwa_pdu_endpoint.Json.{Json, contains, with_text-Any}
use hakoniwa_pdu_endpoint.CommRaw.{PduCommRaw}
use hakoniwa_pdu_endpoint.CommRaw.Version.{configure_version}
use hakoniwa_pdu_endpoint.Sockets.{parse_direction}
use hakoniwa_pdu_endpoint.Sockets.Options.{assign_all}
use hakoniwa_pdu_endpoint.Tcp.{Role, client, server, TcpComm}
use hakoniwa_pdu_endpoint.Tcp.Opening.{
  option_assignments, with_options, options_member, configure_options, configure_role,
  after_version, configure,
}

-- The part of the object that configuration leaves.
pub record Links : Type 0 where
  pub listen_fd : Option ℕ
  pub client_fd : Option ℕ
  pub thread : Option Role
  pub is_running_flag : Bool
  pub is_connected : Bool

module _ (Address : Type 0) where
  abbrev pub links : TcpComm Address → Links
  links c = record {
    listen_fd = c.listen_fd;
    client_fd = c.client_fd;
    thread = c.thread;
    is_running_flag = c.is_running_flag;
    is_connected = c.is_connected;
  }

  abbrev Same : TcpComm Address → TcpComm Address × Option HakoPduErrorType → Type 0
  Same c r = links r.0 ≡ links c

  module _ (J : Json) where
    configure_options-links :
        (c : TcpComm Address) (config : J.Value)
        → links (configure_options J Address c config).0 ≡ links c
    unfolding configure_options
    configure_options-links c config = by_member (J.member config (codes "options"))
      where
        by_result : (r : _ × Bool) → links (with_options J Address c r).0 ≡ links c
        by_result (o, true) = refl
        by_result (o, false) = refl

        by_member : (o : Option J.Value) → links (options_member J Address c o).0 ≡ links c
        by_member none = refl
        by_member (some opts) = by_result (assign_all (option_assignments J opts) c.options)

    configure_role-links :
        (c : TcpComm Address) (config : J.Value)
        → links (configure_role J Address c config).0 ≡ links c
    unfolding configure_role
    configure_role-links c config = with_text-Any J (Same c) config "role" _ _ _ refl refl (λ s.
        if-Any (Same c) (s == codes "server") _ _
          (configure_options-links (record c { role = server }) config)
          (if-Any (Same c) (s == codes "client") _ _
            (configure_options-links (record c { role = client }) config) refl))

    after_version-links :
        (c : TcpComm Address) (config : J.Value) (r : PduCommRaw × HakoPduErrorType)
        → links (after_version J Address c config r).0 ≡ links c
    after_version-links c config (raw, err) =
        if-Any (Same c) (is_ok err) _ _ (configure_role-links (record c { raw = raw }) config) refl

    pub configure-links :
        (c : TcpComm Address) (config : J.Value) → links (configure J Address c config).0 ≡ links c
    unfolding configure
    configure-links c config =
        with_text-Any J (Same c) config "protocol" _ _ _ refl refl (λ protocol.
          if-Any (Same c) (not (protocol == codes "tcp")) _ _ refl (
            if-Any (Same c) (not (contains J config "direction") || not (contains J config "role"))
              _ _ refl
              (with_text-Any J (Same c) config "direction" _ _ _ refl refl (λ direction.
                after_version-links (record c { config_direction = parse_direction direction })
                  config (configure_version J c.raw config)))))
