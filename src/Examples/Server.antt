-- ===== src/Examples/Server.antt =====
-- The program on a platform whose broker answers and whose object store holds one text.
use stocker_informer.Base.{◌≡◌, refl, Bool, true, false, [], ◌∷◌, none, some, Text, codes, All, ◌*◌}
use stocker_informer.Int.{pos, second}
use stocker_informer.Errors.{Result, opaque_error, ok, err}
use stocker_informer.Effects.{socket_opened, deadline_set, ◌>>=◌, pure}
use stocker_informer.Config.{audience_local}
use stocker_informer.Config.Load.{Config}
use stocker_informer.Session
use stocker_informer.Publisher.{publish}
use stocker_informer.Store
use stocker_informer.Text.{
  trim_space, drop_while, drop_while_end, is_space, to_upper, rune_upper, contains, has_prefix,
  split, join,
}
use stocker_informer.Probe.{ProbeChannel}
use stocker_informer.Consumer.{handle_delivery, settle, decode_stock}
use stocker_informer.Dialer.{NetConn, AmqpChannel, AmqpConn, Network, dial_amqp}
use stocker_informer.Build.{Aws}
use stocker_informer.Server.{Platform, assemble}
use stocker_informer.Server.Exits.{Exits}
use stocker_informer.Server.Source.{IsSource, publications, handle_delivery-IsSource}
use stocker_informer.Examples.Config.{library}
use stocker_informer.Examples.World.{
  World, contexts, channel, session, settings, unmarshal, signal, start,
}

abbrev passive : ProbeChannel World
passive = record {
  exchange_declare_passive = λ name kind a b c d w. (none, w);
  queue_declare_passive = λ name a b c d w. (none, w);
  close = λ w. (none, w);
}

abbrev amqp_channel : AmqpChannel contexts
amqp_channel = record { as_channel = channel contexts; as_probe_channel = passive }

abbrev amqp_conn : AmqpConn contexts
amqp_conn = record { channel = λ w. (ok amqp_channel, w); close = λ w. (none, w) }

abbrev handshake : Result (NetConn World) → Result (AmqpConn contexts)
handshake (err e) = err e
handshake (ok conn) = ok amqp_conn

-- The broker takes each connection, and it is one o'clock.
abbrev network : Network contexts
network = record {
  now = λ w. pos (3600 * second);
  deadline = λ ctx. some (pos (3605 * second));
  dial_context = λ timeout deadline ctx name addr w.
      (ok (record { set_deadline = λ d v. (none, v); close = λ v. (none, v) }), w);
  dial_config = λ url heartbeat dial. do
    conn ← dial (codes "tcp") url
    pure (handshake conn);
  as_probe_channel = λ ch. some passive;
}

the_deadline :
    (dial_amqp contexts network tt (codes "broker") (pos (10 * second)) start).events
    ≡ socket_opened ∷ deadline_set (pos (3605 * second)) ∷ []
unfolding dial_amqp
the_deadline = refl

abbrev stored : Text → Store.Body World
stored content = record { read_all = λ w. (ok content, w); close = λ w. w }

abbrev aws : Aws contexts
aws = record {
  AwsConfig = Unit {0};
  load_default_config = λ region key secret. ok tt;
  new_from_config =
      λ conf endpoint path_style ctx bucket key w. (Store.body (stored (codes "# Up 3%\n")), w);
}

abbrev platform : Text → Platform contexts Bool
platform timeout = record {
  library = library timeout;
  notify_context = λ w. (tt, w);
  stop = λ ctx w. w;
  aws = aws;
  http = record {
    new_request = λ ctx endpoint body. none;
    send = λ timeout ctx endpoint token body w. (ok (record { status = 200; body = [] }), w);
    encode = λ form. [];
    decode_id = λ bytes. err (opaque_error 4);
  };
  ollama = record {
    marshal = λ request. ok (123 ∷ []);
    new_request = λ ctx endpoint payload. none;
    send = λ timeout ctx endpoint payload w. (err (opaque_error 5), w);
    decode = λ body. err (opaque_error 6);
    today = λ w. codes "January 2, 2026";
  };
  network = network;
  wait = λ ctx d w. (true, w);
  unmarshal = unmarshal;
  pid = codes "7";
  check = λ cfg ctx w. (none, w);
}

abbrev settings_of : Bool → Config Bool
settings_of enabled = record {
  goto_social_instance = codes "https://social.example/";
  goto_social_user = codes "cora";
  goto_social_token = codes "token";
  goto_social_audience = audience_local;
  goto_social_recipient = [];
  s3 = record {
    endpoint = codes "http://store:3900";
    region = [];
    bucket = codes "summaries";
    access_key = codes "key";
    secret_key = codes "secret";
    path_prefix = codes "a/b";
    timeout = pos 0;
  };
  ollama = record {
    enabled = enabled;
    base_url = codes "http://ollama:11434";
    model = codes "gemma4:26b";
    system_prompt = [];
    timeout = pos (120 * second);
    temperature = true;
    max_tokens = pos 1024;
    max_output_chars = pos 280;
  };
  rabbit_mq = settings;
}

abbrev store : Store.Client contexts
store = record {
  api = λ ctx bucket key w. (Store.body (stored (codes "# Up 3%\n")), w);
  bucket = codes "summaries";
  prefix = codes "a/b";
  timeout = pos 0;
}

handle_delivery-IsSource_example :
    All (IsSource contexts Bool (platform []) (settings_of false) store tt (signal 1) start) (
      publications
        (handle_delivery contexts
          (assemble contexts Bool (platform []) (settings_of false) store).consumer
          tt
          (session contexts)
          (signal 1)
          start).events)
handle_delivery-IsSource_example =
    handle_delivery-IsSource contexts Bool (platform []) (settings_of false) store tt
      (session contexts) (signal 1) refl start

the_publication :
    publications
      (handle_delivery contexts
        (assemble contexts Bool (platform []) (settings_of false) store).consumer
        tt
        (session contexts)
        (signal 1)
        start).events
    ≡ codes "# Up 3%" ∷ []
unfolding handle_delivery assemble settle decode_stock Session.ack publish Store.read_summary
    Store.build_key Store.normalize_prefix trim_space drop_while drop_while_end is_space to_upper
    rune_upper contains has_prefix split join
the_publication = refl
