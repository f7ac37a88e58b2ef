-- ===== src/Client/Connected.antt =====
-- client/client.go: what a successful DialAndWaitForConnectBack comes to.
use bittorrent_over_scion.Client.{Client}
