-- ===== src/Dtls/Reads.antt =====
-- What a run hands on, apart from the reads: dtls_psk/server.py, lines 265-302.
use ha_hue_entertainment.Prelude.{List, [], ◌∷◌}
use ha_hue_entertainment.Dtls.Session.{
  ssl_new, ssl_shutdown, ssl_free, bio_new, set_bio, addr_new, addr_free, listen, do_handshake,
  handshake_done, ssl_read, Call, dispatch, Run,
}

-- The run without the calls of SSL_read: what is handed on, and the end.
abbrev or_read : Call → List Call → List Call
or_read ssl_read rest = rest
or_read ssl_new rest = ssl_new ∷ rest
or_read ssl_shutdown rest = ssl_shutdown ∷ rest
or_read ssl_free rest = ssl_free ∷ rest
or_read bio_new rest = bio_new ∷ rest
or_read set_bio rest = set_bio ∷ rest
or_read addr_new rest = addr_new ∷ rest
or_read addr_free rest = addr_free ∷ rest
or_read listen rest = listen ∷ rest
or_read do_handshake rest = do_handshake ∷ rest
or_read handshake_done rest = handshake_done ∷ rest
or_read (dispatch frame) rest = dispatch frame ∷ rest

abbrev pub no_reads : List Call → List Call
no_reads [] = []
no_reads (c ∷ cs) = or_read c (no_reads cs)

abbrev pub without_reads : Run → Run
without_reads r = record r { calls = no_reads r.calls }
