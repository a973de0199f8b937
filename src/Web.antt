-- ===== src/Web.antt =====
-- web/status.py, web/console_log.py and web/routes.py: what the web page tells the proxy, what it is
-- shown, and the log of its console. ProxyControl acts on the proxy of proxy_core.py; its handlers
-- are in the children, and are events of the proxy.
pub mod Status
pub mod Names
pub mod Safe
pub mod Unique
pub mod Control
pub mod Console
pub mod Handler
pub mod Start
pub mod Mirror
pub mod FileNames
pub mod Upload
pub mod Routes
