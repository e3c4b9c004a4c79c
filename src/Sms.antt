-- ===== src/Sms.antt =====
-- The classes that send and receive text messages: base_station/src/sms_sender.cpp and
-- base_station/src/sms_receiver.cpp. The daemon of smstools keeps one file for each message.
pub mod Sender
pub mod Receiver
